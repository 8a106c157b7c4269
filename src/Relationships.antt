-- ===== src/Relationships.antt =====
-- The relationships screen: cli/src/internal/ui/relationships.go. Drawing is not modelled.
pub mod State
pub mod Candidates
pub mod Listing
pub mod Create
pub mod Update
pub mod Valid
pub mod Wizard
pub mod Editing
pub mod Views
pub mod Steps
pub mod Requests
pub mod Consent
pub mod Escape
