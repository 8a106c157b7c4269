-- ===== src/Table.antt =====
-- The table widget of charm.land/bubbles with rows of one kind, of which the program uses these
-- methods. What it draws and where it scrolls is left to it.
use nebula_core.Prelude.{ℤ, List}

pub record TableApi (Row Table : Type 0) : Type 0 where
  pub cursor : Table → ℤ
  pub set_rows : List Row → Table → Table
  pub set_cursor : ℤ → Table → Table
  pub move_down : Table → Table
  pub move_up : Table → Table
