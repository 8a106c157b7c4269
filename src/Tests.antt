-- ===== src/Tests.antt =====
-- Runs of the model on concrete inputs, and each theorem at an input that meets its hypotheses.
mod Inbox
mod Scopes
mod ListView
mod Sanitize
mod Diff
mod ApprovalDiff
mod Metadata
mod Editor
mod Relationships
mod Grid
mod Jobs
mod ApiErrors
