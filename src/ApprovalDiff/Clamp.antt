-- ===== src/ApprovalDiff/Clamp.antt =====
-- The line limit of a value.
use nebula_core.Prelude.{ℕ, ◌-◌, List, [], ◌∷◌, ◌++◌, map, if◌then◌else◌, leb, length, take, All}
use nebula_core.Text.{Text}
use nebula_core.Text.Lines.{IsOther}
use nebula_core.ApprovalDiff.{trim_blanks, more_lines}

-- A line has no line break.
abbrev pub IsLine : Text → Type 0
IsLine s = All (IsOther 10) s

abbrev trimmed_lines : List Text → List Text
trimmed_lines ls = map trim_blanks ls

-- The lines that a limit of `n` leaves of the lines of a value.
pub limited : ℕ → List Text → List Text
limited n lines =
    if leb (length lines) n then lines else take n lines ++ more_lines (length lines - n) ∷ []
