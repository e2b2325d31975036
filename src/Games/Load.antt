-- ===== src/Games/Load.antt =====
-- src/games.c: `games_load` and `games_match`. The walk over the buffer is that of
-- `Lines.split_lines`.
pub mod Bounds
use x3d_toggle_main.Prelude.{
  ℕ, ◌+◌, ◌-◌, Bool, true, false, not, ◌&&◌, ◌||◌, Option, none, some, List, [], ◌∷◌, ◌++◌, ◌==◌,
  ltb, if◌then◌else◌, String, Bytes, codes, cstr, deref, take, length,
}
use x3d_toggle_main.Libc.Strings.{strstr}
use x3d_toggle_main.Libc.Strings.Equal.{str_eq}
use x3d_toggle_main.Lines.{split_lines}
use x3d_toggle_main.Kernel.{Kernel}

-- `strstr(line, "…")` as a test
unfoldable pub contains : Bytes → Bytes → Bool
contains s name = elim (strstr (some s) (some name)) [ none ↦ false | some _ ↦ true ]

is_blank : ℕ → Bool
is_blank c = c == b' ' || c == b'\t'

-- the blanks and ends of line at the end of a line
unfoldable pub trim_right : Bytes → Bytes
unfolding is_blank
trim_right [] = []
trim_right (c ∷ s) =
    let rest = trim_right s in
    if length rest == 0 && (c == b'\n' || c == b'\r' || is_blank c) then [] else c ∷ rest

unfoldable pub trim_left : Bytes → Bytes
unfolding is_blank
trim_left [] = []
trim_left (c ∷ s) = if is_blank c then trim_left s else c ∷ s

-- whether the list holds the name
unfoldable pub is_listed : Bytes → List Bytes → Bool
is_listed p [] = false
is_listed p (name ∷ names) = str_eq name p || is_listed p names

abbrev pub games_max : ℕ
games_max = 512

abbrev pub game_name : ℕ
game_name = 64

-- a line of a section of games
unfoldable pub load_game : List Bytes → Bytes → List Bytes
load_game names line =
    let p = trim_left (trim_right line) in
    if deref p == 0 || deref p == b'#' || ltb (length p) 2 || is_listed p names
    then names
    else names ++ (take (game_name - 1) p ∷ [])

-- The loop over the lines, with `game_section` and the names so far.
unfoldable pub load_games : List Bytes → Bool → List Bytes → List Bytes
load_games [] section names = names
load_games (line ∷ lines) section names =
    if not (ltb (length names) games_max)
    then names
    else if deref line == b'['
    then load_games lines
        (contains line (codes "[GAMES_SYS]") || contains line (codes "[GAMES_USR]")) names
    else load_games lines section (if section then load_game names line else names)

-- behind the read
unfoldable pub load_read : Option Bytes → List Bytes
load_read none = []
load_read (some buf) = load_games (split_lines (cstr buf)) false []

-- `path` is GAMES_SYS.
unfoldable pub games_load : (k : Kernel) → Bytes → k.State → List Bytes
games_load k path s = load_read (k.read_file path 8191 s)

unfoldable pub matches_any : List Bytes → Bytes → Bool
matches_any [] comm = false
matches_any (name ∷ names) comm =
    (not (deref name == 0) && contains comm name) || matches_any names comm

unfoldable pub games_match : List Bytes → Bytes → Bool
games_match names comm = not (deref comm == 0) && matches_any names comm
