-- ===== src/Lines.antt =====
-- The loop over the lines of a buffer that config.c, games.c, irq.c and status.c write out again
-- and again: `strchr` finds the next newline, NUL takes its place, and the line in front of it is a
-- C string.
pub mod Walk
use x3d_toggle_main.Prelude.{ℕ, List, [], ◌∷◌, ◌++◌, ◌==◌, if◌then◌else◌, Bytes}

abbrev pub cons_first : ℕ → List Bytes → List Bytes
cons_first c [] = (c ∷ []) ∷ []
cons_first c (l ∷ ls) = (c ∷ l) ∷ ls

-- The lines of a text. A newline ends a line, and no empty line follows the last one.
unfoldable pub split_lines : Bytes → List Bytes
split_lines [] = []
split_lines (c ∷ s) = if c == b'\n' then [] ∷ split_lines s else cons_first c (split_lines s)

-- Each line with a newline behind it.
unfoldable pub join_lines : List Bytes → Bytes
join_lines [] = []
join_lines (l ∷ ls) = l ++ (b'\n' ∷ join_lines ls)
