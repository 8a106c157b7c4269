-- ===== src/Lib.antt =====
-- Verification of the command line client of Nebula (cli/src). The client is a terminal
-- program: each screen keeps its state in a record, takes the messages of the bubbletea loop
-- one by one, and returns the new state with a command that talks to the API server. Strings
-- are lists of bytes (Text); TrimSpace and ToLower are read on ASCII. A `map[string]bool`
-- whose keys are all true is the list of its keys (StringSet). Go's int is an unbounded
-- integer or natural number.
-- - Keys (cli/src/internal/ui/keybindings.go): key presses. What bubbletea says of a key is
--   data.
-- - Value: decoded JSON values.
-- - Inbox (cli/src/internal/ui/inbox.go): the approvals inbox. Inbox.State has InboxModel, its
--   messages and commands; Inbox.Filter the filter line; Inbox.Select applyFilter and the
--   selection; Inbox.Grant the grants of an enrolling agent; Inbox.Flow the handlers of the
--   dialogues; Inbox.Update the dispatch; Inbox.Targets the requests acted on; Inbox.Commands
--   the loops that run in the commands. The table widget, the clock, encoding/json and the
--   rendered line of an approval are the record Env. Rendering is not modelled.
-- - Scopes (cli/src/internal/ui/scopes.go, context.go, metadata.go, entities.go): toggling and
--   normalising scopes and tags, and the bulk edit line.
-- - ListView (cli/src/internal/ui/components/list.go, metadata.go): the scrollable list and
--   syncMetadataList; its numbers are natural, since no code writes a negative one.
-- - Sanitize (cli/src/internal/ui/components/sanitize.go): the removal of escape sequences and
--   control characters. Sanitize.Clean is about the bytes that are left, Sanitize.Plain about
--   the runes; Text.Runes decodes UTF-8 as a range over a string does, with the length of the
--   text as fuel, which is enough since every piece has a byte.
-- - Diff (cli/src/internal/ui/components/diffview.go): unified diffs and comparisons of fields
--   as typed lines, with their numbers as integers (ℤ); it cleans labels and values by
--   Sanitize. Diff.Headers and Diff.Scan are about the header of a hunk.
-- - ApprovalDiff (cli/src/internal/cmd/approval_diff_output.go): the rows, filters and flags
--   of the approval diff command. How encoding/json prints a value is the parameter
--   marshal_indent.
-- - Metadata (cli/src/internal/ui/metadata.go): metadata written as lines, with the stack of
--   open maps as the path of the innermost one; Metadata.ScopeField the scopes kept among the
--   fields.
-- - Metadata.Structured and Metadata.Print (cli/src/internal/ui/metadata.go): texts that hold
--   JSON, and the text of the editor. encoding/json is the record Json. Decoding texts in
--   texts takes as fuel one more than the number of code points of the longest text, which is
--   enough since the texts of a decoded value are parts of its source.
-- - Editor (cli/src/internal/ui/metadata_editor.go): the metadata editor, on Metadata, Scopes
--   and the table widget (Table). Editor.State has its state, Editor.Rows the operations on
--   rows, Editor.Keys the keys; none as an outcome is a panic.
-- - Relationships (cli/src/internal/ui/relationships.go): the screen, on Keys, Table, Sanitize
--   and Editor. Relationships.State has its state, messages and commands,
--   Relationships.Candidates what the wizard offers, Relationships.Listing,
--   Relationships.Create and Relationships.Update the keys of the list, of the wizard and of
--   the rest; a command is a value that says what is asked of the server; none is a panic.
--   Texts are their bytes.
-- - Grid (cli/src/internal/ui/components/tablegrid.go): the widths of the columns of a grid.
--   The loop of shrinkColumns is structural on the deficit, which falls by one in each round.
-- - ApiErrors (cli/src/internal/api/client.go) and Startup (cli/src/internal/ui/app.go): the
--   errors that the client makes of an answer, and what the application makes of these. A
--   decoded body is a Value; a missing key of a map reads as null.
-- - Jobs (cli/src/internal/ui/jobs.go): the jobs screen, on Keys, Table, StringSet and the API
--   records of Relationships.State. Jobs.State has its state, messages and commands,
--   Jobs.Search the search and the selection, Jobs.Listing, Jobs.Prompts, Jobs.Forms and
--   Jobs.Update the keys. The forms of charm.land/huh are the record FormApi; they write into
--   copies of the model, so what is typed into one is part of the form. The int of a row
--   number has 64 bits.
-- Not modelled: what the screens draw, beyond texts and widths that other code reads; the
-- screens of entities, context, logs, files, protocols, history, search, profile and import;
-- the routing of the application; the transport over HTTP; the commands other than the
-- approval diff; the configuration; the Python server and the database. The packages of
-- charm.land (bubbletea, bubbles, huh, lipgloss), encoding/json and the clock are parameters.
pub mod Prelude
pub mod Text
pub mod StringSet
pub mod Keys
pub mod Table
pub mod Value
pub mod Inbox
mod Tests
pub mod Scopes
pub mod Diff
pub mod ApprovalDiff
pub mod Metadata
pub mod Editor
pub mod Relationships
pub mod Grid
pub mod Jobs
pub mod ApiErrors
pub mod Startup
pub mod ListView
pub mod Sanitize
