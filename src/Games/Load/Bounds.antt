-- ===== src/Games/Load/Bounds.antt =====
-- What `games_load` puts into the list.
use x3d_toggle_main.Prelude.{
  ℕ, zero, suc, ◌≤◌, ◌<◌, ◌≡◌, ◌≢◌, refl, Bool, true, false, ◌||◌, Option, none, some, List, [],
  ◌∷◌, Bytes, ltb, ◌==◌, if◌then◌else◌, deref, take, length, length-append, length-take, arith,
  Bool-cases, inl, inr, All, All-append, cstr,
}
use x3d_toggle_main.Kernel.{Kernel}
use x3d_toggle_main.Lines.{split_lines}
use x3d_toggle_main.Games.Load.{
  trim_left, trim_right, is_listed, load_game, load_games, load_read, games_load, games_max,
  game_name,
}

-- A name that fits its array of 64 bytes, with at least two bytes and no mark of a comment.
abbrev pub GoodName : Bytes → Type 0
GoodName p = (2 ≤ length p) × (length p < game_name) × (deref p ≢ 0) × (deref p ≢ b'#')

-- a list that fits its array
abbrev pub GoodList : List Bytes → Type 0
GoodList names = (length names ≤ games_max) × All GoodName names

deref-take : (p : Bytes) (n : ℕ) → 0 < n → deref (take n p) ≡ deref p
deref-take [] (suc n) h = refl
deref-take (c ∷ p) (suc n) h = refl
deref-take p zero h = absurd (omega arith)

load_game-Good :
    (names : List Bytes) (line : Bytes)
    → length names < games_max
    → All GoodName names
    → GoodList (load_game names line)
unfolding load_game
load_game-Good names line room good =
    let p = trim_left (trim_right line) in
    elim (Bool-cases (deref p == 0 || deref p == b'#' || ltb (length p) 2 || is_listed p names)) [
      | inl skip ↦ rw skip (omega arith, good)
      | inr keep ↦
          let first = deref-take p 63 (omega arith) in
          let len = length-take 63 p in
          let name : GoodName (take 63 p) = (
            ground (arith, len, keep),
            ground (arith, len),
            ground (arith, first, keep),
            ground (arith, first, keep),
          ) in
          rw keep (
            omega (arith, length-append names (take 63 p ∷ [])),
            All-append _ names (take 63 p ∷ []) good (name, tt),
          )
    ]

load_games-Good :
    (lines : List Bytes) (section : Bool) (names : List Bytes)
    → GoodList names
    → GoodList (load_games lines section names)
unfolding load_games
load_games-Good [] section names h = h
load_games-Good (line ∷ lines) section names h = elim (Bool-cases (ltb (length names) games_max)) [
  | inr stop ↦ rw stop h
  | inl room ↦ elim (Bool-cases (deref line == b'[')) [
    | inl mark ↦ rw (room, mark) (load_games-Good lines _ names h)
    | inr entry ↦
        rw (room, entry)
          (load_games-Good lines section _
            (step section (load_game-Good names line (ground (arith, room)) h.1)))
  ]
]
  where
    step :
        (b : Bool)
        → GoodList (load_game names line)
        → GoodList (if b then load_game names line else names)
    step true g = g
    step false g = h

-- Whatever the file of the games holds, `games_load` gives at most 512 names, and each has at least
-- 2 and at most 63 bytes and does not start with a NUL or with the mark of a comment.
pub games_load-Good : (k : Kernel) (path : Bytes) (s : k.State) → GoodList (games_load k path s)
unfolding games_load load_read
games_load-Good k path s = read_Good (k.read_file path 8191 s)
  where
    read_Good : (o : Option Bytes) → GoodList (load_read o)
    read_Good none = (omega arith, tt)
    read_Good (some buf) = load_games-Good (split_lines (cstr buf)) false [] (omega arith, tt)
