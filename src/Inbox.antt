-- ===== src/Inbox.antt =====
-- The approvals inbox: cli/src/internal/ui/inbox.go.
pub mod State
pub mod Filter
pub mod Select
pub mod Grant
pub mod Flow
pub mod Update
pub mod Indices
pub mod Consent
pub mod Visible
pub mod Session
pub mod Commands
pub mod Selection
pub mod Targets
pub mod Reject
