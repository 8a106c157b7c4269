-- ===== src/Editor.antt =====
-- The metadata editor: cli/src/internal/ui/metadata_editor.go. Drawing, and the loading of a map of
-- metadata, which no screen of the program calls, are not modelled.
pub mod State
pub mod Rows
pub mod Keys
pub mod Runes
pub mod Ranges
pub mod Valid
pub mod Buffer
