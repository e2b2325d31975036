-- ===== src/Games/Edit.antt =====
-- src/games.c: `game_add` and `game_remove`, which rewrite the file that holds the list.
pub mod Overrun
use x3d_toggle_main.Prelude.{
  ℕ, zero, suc, ◌+◌, ◌-◌, Bool, true, false, not, ◌&&◌, ◌||◌, Option, none, some, List, [], ◌∷◌,
  ◌++◌, ◌==◌, ltb, leb, if◌then◌else◌, Bytes, codes, cstr, deref, take, drop, length, ℤ,
}
use x3d_toggle_main.Libc.Chars.{isspace}
use x3d_toggle_main.Libc.Strings.Equal.{str_eq}
use x3d_toggle_main.Lines.{split_lines}
use x3d_toggle_main.Kernel.{Kernel, wronly_create_trunc}
use x3d_toggle_main.Errors.{err_success, err_remove, err_mem}
use x3d_toggle_main.Games.Load.{contains}

-- `trim_ws_inplace`
skip_space : Bytes → Bytes
skip_space [] = []
skip_space (c ∷ s) = if isspace c then skip_space s else c ∷ s

drop_space : Bytes → Bytes
drop_space [] = []
drop_space (c ∷ s) =
    let rest = drop_space s in if length rest == 0 && isspace c then [] else c ∷ rest

unfoldable pub trim_ws_inplace : Bytes → Bytes
unfolding skip_space drop_space
trim_ws_inplace s = drop_space (skip_space s)

-- the section that the line before was in
pub data Section : Type 0 where
  no_section games_sys games_usr : Section

unfoldable pub section_of : Bytes → Section
section_of ln =
    if contains ln (codes "[GAMES_SYS]")
    then games_sys
    else if contains ln (codes "[GAMES_USR]")
    then games_usr
    else no_section

is_sys : Section → Bool
is_sys games_sys = true
is_sys _ = false

is_usr : Section → Bool
is_usr games_usr = true
is_usr _ = false

-- What the first pass over the file finds.
pub record Scan : Type 0 where
  pub lines : List Bytes
  pub found_sys : Bool
  pub found_usr : Bool
  pub games_usr_idx : Option ℕ

unfoldable pub empty_scan : Scan
empty_scan = record { lines = []; found_sys = false; found_usr = false; games_usr_idx = none }

-- `printf_sn(lines[count], 256, "%s\n", ln)`
unfoldable pub store_line : Bytes → Bytes
store_line ln = take 255 (ln ++ (b'\n' ∷ []))

-- One line, in a section; `clean` is what is compared with the name.
unfoldable pub scan_line : (Bytes → Bytes) → Bytes → Bytes → Section → Scan → Section × Scan
unfolding is_sys is_usr
scan_line clean game ln here s =
    let stored : Scan = record s { lines = s.lines ++ (store_line ln ∷ []) } in
    if deref ln == b'['
    then (let next = section_of ln in
        (
          next,
          (if is_usr next then record stored { games_usr_idx = some (length s.lines) } else stored),
        ))
    else (let hit = str_eq (clean (take 255 ln)) game in
        (
          here,
          record stored {
            found_sys = s.found_sys || (is_sys here && hit);
            found_usr = s.found_usr || (is_usr here && hit);
          },
        ))

-- The loop of `game_add`, whose array has `cap` lines: `none` where it writes behind the array.
unfoldable pub scan_add : ℕ → Bytes → List Bytes → Section → Scan → Option Scan
scan_add cap game [] here s = some s
scan_add cap game (ln ∷ lines) here s =
    let (next, s1) = scan_line trim_ws_inplace game ln here s in
    if not (ltb (length s.lines) 1024)
    then some s
    else if leb cap (length s.lines)
    then none
    else scan_add cap game lines next s1

-- The loop of `game_remove`, whose array has 1024 lines.
unfoldable pub scan_remove : Bytes → List Bytes → Section → Scan → Scan
scan_remove game [] here s = s
scan_remove game (ln ∷ lines) here s =
    let (next, s1) = scan_line (λ t. t) game ln here s in
    if not (ltb (length s.lines) 1024) then s else scan_remove game lines next s1

-- the lines that are read; none where open fails or read gives nothing
unfoldable pub file_lines : Option Bytes → List Bytes
file_lines none = []
file_lines (some buf) = split_lines (cstr buf)

-- The lines that `game_add` writes: behind the header of the user's section, or with a new one.
unfoldable pub insert_game : Bytes → Scan → List Bytes
insert_game game s = elim s.games_usr_idx [
  | none ↦ s.lines ++ (take 255 (codes "\n[GAMES_USR]\n" ++ (cstr game ++ (b'\n' ∷ []))) ∷ [])
  | some i ↦ take (i + 1) s.lines ++ (store_line (cstr game) ∷ drop (i + 1) s.lines)
]

unfoldable pub concat_lines : List Bytes → Bytes
concat_lines [] = []
concat_lines (l ∷ ls) = l ++ concat_lines ls

-- What `game_add` and `game_remove` come to: a result and the state, or a write behind the array.
pub data Edit (S : Type 0) : Type 0 where
  done : ℤ → S → Edit S
  overrun : Edit S

-- the loop of `game_remove` that leaves the game out, with `in_usr`
unfoldable pub drop_game : Bytes → List Bytes → Bool → List Bytes
drop_game game [] in_usr = []
drop_game game (l ∷ ls) in_usr =
    let now =
      if contains l (codes "[GAMES_USR]")
      then true
      else if deref l == b'['
      then false
      else in_usr in
    let rest = drop_game game ls now in if now && str_eq (trim_ends l) game then rest else l ∷ rest
  where
    trim_ends : Bytes → Bytes
    trim_ends [] = []
    trim_ends (c ∷ s) =
        let rest = trim_ends s in
        if length rest == 0 && (c == b'\n' || c == b'\r') then [] else c ∷ rest

module _ (k : Kernel) (path : Bytes) where
  -- The file is written line by line; it is one write here.
  write_lines : List Bytes → k.State → k.State
  write_lines ls s = (k.write_file wronly_create_trunc path (concat_lines ls) s).0

  add_scanned : Bool → Bytes → Option Scan → k.State → Edit k.State
  add_scanned memory game none s = overrun
  add_scanned memory game (some scan) s =
      if scan.found_sys || scan.found_usr
      then done err_success s
      else if leb 1024 (length scan.lines) || (leb 64 (length scan.lines) && not memory)
      then done err_mem s
      else done err_success (write_lines (insert_game game scan) s)

  -- `path` is CONFIG_PATH; `memory` says whether `realloc` succeeds.
  unfoldable pub game_add : Bool → Bytes → k.State → Edit k.State
  unfolding add_scanned write_lines
  game_add memory game s =
      add_scanned memory game
        (scan_add 64 game (file_lines (k.read_file path 16383 s)) no_section empty_scan) s

  remove_scanned : Bytes → Scan → k.State → Edit k.State
  remove_scanned game scan s =
      if scan.found_sys || not scan.found_usr
      then done err_remove s
      else done err_success (write_lines (drop_game game scan.lines false) s)

  unfoldable pub game_remove : Bytes → k.State → Edit k.State
  unfolding remove_scanned write_lines
  game_remove game s =
      remove_scanned game
        (scan_remove game (file_lines (k.read_file path 16383 s)) no_section empty_scan) s
