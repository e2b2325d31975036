-- ===== src/Games/Edit/Overrun.antt =====
-- `game_add` on a file that has more lines than its array.
use x3d_toggle_main.Prelude.{
  ℕ, ◌+◌, ◌≤◌, ◌<◌, ◌≡◌, refl, ap, ◌∙◌, Bool, none, List, [], ◌∷◌, ◌++◌, Bytes, leb, ◌==◌, deref,
  length, length-append, arith, Bool-cases, inl, inr,
}
use x3d_toggle_main.Kernel.{Kernel}
use x3d_toggle_main.Games.Edit.{
  Section, no_section, Scan, empty_scan, store_line, section_of, is_usr, scan_line, trim_ws_inplace,
  scan_add, file_lines, add_scanned, game_add, overrun,
}

-- every line is stored
scan_line-lines :
    (clean : Bytes → Bytes) (game ln : Bytes) (here : Section) (s : Scan)
    → (scan_line clean game ln here s).1.lines ≡ s.lines ++ (store_line ln ∷ [])
unfolding scan_line
scan_line-lines clean game ln here s = elim (Bool-cases (deref ln == b'[')) [
  | inl e ↦ elim (Bool-cases (is_usr (section_of ln))) [
    | inl u ↦ rw (e, u) refl
    | inr u ↦ rw (e, u) refl
  ]
  | inr e ↦ rw e refl
]

scan_add-overrun :
    (cap : ℕ) (game : Bytes) (lines : List Bytes) (here : Section) (s : Scan)
    → cap < 1024
    → length s.lines ≤ cap
    → cap < length s.lines + length lines
    → scan_add cap game lines here s ≡ none
unfolding scan_add
scan_add-overrun cap game [] here s hc h l = absurd (omega arith)
scan_add-overrun cap game (ln ∷ lines) here s hc h l =
    let r = scan_line trim_ws_inplace game ln here s in
    let more : length r.1.lines ≡ length s.lines + 1 =
      ap length (scan_line-lines trim_ws_inplace game ln here s)
      ∙ length-append s.lines (store_line ln ∷ []) in
    elim (Bool-cases (leb cap (length s.lines))) [
      | inl full ↦ ground (arith, full)
      | inr room ↦ ground (
        arith,
        room,
        scan_add-overrun cap game lines r.0 r.1 hc (ground (arith, more)) (ground (arith, more)),
      )
    ]

-- For a file whose first 16383 bytes have more than 64 lines, `game_add` writes behind the array of
-- 64 lines that it has allocated, whatever the game is.
pub game_add-overrun :
    (k : Kernel) (path game : Bytes) (memory : Bool) (s : k.State)
    → 64 < length (file_lines (k.read_file path 16383 s))
    → game_add k path memory game s ≡ overrun
unfolding game_add add_scanned empty_scan
game_add-overrun k path game memory s h =
    ap (λ o. add_scanned k path memory game o s)
      (scan_add-overrun 64 game (file_lines (k.read_file path 16383 s)) no_section empty_scan
        (omega arith) (omega arith) (omega arith))
