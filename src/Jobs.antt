-- ===== src/Jobs.antt =====
-- The jobs screen: cli/src/internal/ui/jobs.go. Drawing is not modelled.
pub mod State
pub mod Search
pub mod Listing
pub mod Forms
pub mod Prompts
pub mod Update
pub mod Panics
pub mod AddForm
pub mod Requests
pub mod Consent
pub mod Reach
