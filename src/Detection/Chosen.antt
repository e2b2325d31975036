-- ===== src/Detection/Chosen.antt =====
-- From the names in /proc to the mode that a round of polling sets.
use x3d_toggle_main.Prelude.{
  ◌≡◌, refl, Bool, true, false, ◌&&◌, ◌||◌, some, List, [], ◌∷◌, ◌++◌, leb, Bytes, codes, deref,
}
use x3d_toggle_main.Kernel.{Kernel}
use x3d_toggle_main.Detection.{scan_pid, scan_names, dir_read, detect_game}

-- the first byte is a digit
abbrev pub starts_with_digit : Bytes → Bool
starts_with_digit name = leb b'0' (deref name) && leb (deref name) b'9'

module _ (k : Kernel) (games : List Bytes) (s : k.State) where
  scan_names-finds :
      (before after : List Bytes) (name : Bytes)
      → starts_with_digit name ≡ true
      → scan_pid k games name s ≡ true
      → scan_names k games (before ++ name ∷ after) s ≡ true
  unfolding scan_names
  scan_names-finds [] after name digit hit = rw (digit, hit) refl
  scan_names-finds (other ∷ before) after name digit hit =
      rw (scan_names-finds before after name digit hit)
        (or_true (leb b'0' (deref other) && leb (deref other) b'9' && scan_pid k games other s))
    where
      or_true : (b : Bool) → (b || true) ≡ true
      or_true true = refl
      or_true false = refl

  pub detect_game-finds :
      (before after : List Bytes) (name : Bytes)
      → k.list_dir (codes "/proc") s ≡ some (before ++ name ∷ after)
      → starts_with_digit name ≡ true
      → scan_pid k games name s ≡ true
      → detect_game k games s ≡ true
  unfolding detect_game dir_read
  detect_game-finds before after name listed digit hit =
      rw listed (scan_names-finds before after name digit hit)
