-- ===== src/Config/Update/Laws.antt =====
-- The text that `config_update` writes, as lines: every line of the key is replaced, and the
-- setting is put at the end where there was none; the buffer cuts the whole at 8191 bytes.
use x3d_toggle_main.Prelude.{
  ℕ, ◌-◌, ◌<◌, ◌≡◌, refl, sym, ap, ◌∙◌, inl, inr, Bool, true, false, ◌||◌, List, [], ◌∷◌, ◌++◌,
  if◌then◌else◌, Bytes, cstr, cstr-NoNul, NoNul, ◌==◌, ◌≢◌, All, All-append, take, take-all, length,
  append_assoc, append-nil, arith, Bool-cases,
}
use x3d_toggle_main.Libc.Bounded.Append.{strlcat_local-take}
use x3d_toggle_main.Lines.{cons_first, split_lines, join_lines}
use x3d_toggle_main.Config.Update.{
  buffer_size, has_key, append, append_setting, append_line, rewrite_lines, update_text,
}

abbrev pub setting : Bytes → Bytes → Bytes
setting key val = key ++ (b'=' ∷ val)

-- The lines of the new file.
unfoldable pub updated_lines : Bytes → Bytes → List Bytes → Bool → List Bytes
updated_lines key val [] found = if found then [] else setting key val ∷ []
updated_lines key val (line ∷ lines) found =
    (if has_key key line then setting key val else line)
    ∷ updated_lines key val lines (found || has_key key line)

abbrev cut : Bytes → Bytes
cut = take (buffer_size - 1)

append-cut : (text src : Bytes) → NoNul text → NoNul src → append (cut text) src ≡ cut (text ++ src)
append-cut text src ht hs = strlcat_local-take text src buffer_size ht hs (omega arith)

eq_sign : NoNul (b'=' ∷ [])
eq_sign = omega arith

newline : NoNul (b'\n' ∷ [])
newline = omega arith

append_line-cut :
    (line text : Bytes)
    → NoNul line
    → NoNul text
    → append_line line (cut text) ≡ cut (text ++ (line ++ (b'\n' ∷ [])))
unfolding append_line
append_line-cut line text hl ht =
    ap (λ o. append o (b'\n' ∷ [])) (append-cut text line ht hl)
    ∙ append-cut (text ++ line) (b'\n' ∷ []) (All-append _ text line ht hl) newline
    ∙ ap cut (append_assoc text line (b'\n' ∷ []))

append_setting-cut :
    (key val text : Bytes)
    → NoNul key
    → NoNul val
    → NoNul text
    → append_setting key val (cut text) ≡ cut (text ++ (setting key val ++ (b'\n' ∷ [])))
unfolding append_setting append_line
append_setting-cut key val text hk hv ht =
    let h1 : NoNul (text ++ key) = All-append _ text key ht hk in
    let t2 = (text ++ key) ++ (b'=' ∷ []) in
    let h2 : NoNul t2 = All-append _ (text ++ key) (b'=' ∷ []) h1 eq_sign in
    let e : append (append (cut text) key) (b'=' ∷ []) ≡ cut t2 =
      ap (λ o. append o (b'=' ∷ [])) (append-cut text key ht hk)
      ∙ append-cut (text ++ key) (b'=' ∷ []) h1 eq_sign in
    ap (λ o. append_line val o) e ∙ append_line-cut val t2 hv h2 ∙ ap cut (simp append_assoc)

NoNul-setting : (key val : Bytes) → NoNul key → NoNul val → NoNul (setting key val)
NoNul-setting key val hk hv = All-append _ key (b'=' ∷ val) hk (omega arith, hv)

NoNul-line : (line : Bytes) → NoNul line → NoNul (line ++ (b'\n' ∷ []))
NoNul-line line h = All-append _ line (b'\n' ∷ []) h newline

line_assoc :
    (text line : Bytes) (lines : List Bytes)
    → (text ++ (line ++ (b'\n' ∷ []))) ++ join_lines lines ≡ text ++ join_lines (line ∷ lines)
unfolding join_lines
line_assoc text line lines = simp append_assoc

join_lines-nil : (text : Bytes) → text ≡ text ++ join_lines []
unfolding join_lines
join_lines-nil text = sym (append-nil text)

join_lines-one : (line : Bytes) → line ++ (b'\n' ∷ []) ≡ join_lines (line ∷ [])
unfolding join_lines
join_lines-one line = refl

module _ (key val : Bytes) (hk : NoNul key) (hv : NoNul val) where
  rewrite_lines-cut :
      (lines : List Bytes) (text : Bytes) (found : Bool)
      → All NoNul lines
      → NoNul text
      → rewrite_lines key val lines (cut text) found
        ≡ cut (text ++ join_lines (updated_lines key val lines found))
  unfolding rewrite_lines updated_lines
  rewrite_lines-cut [] text true hl ht = ap cut (join_lines-nil text)
  rewrite_lines-cut [] text false hl ht =
      append_setting-cut key val text hk hv ht
      ∙ ap (λ t. cut (text ++ t)) (join_lines-one (setting key val))
  rewrite_lines-cut (line ∷ lines) text found (h, hl) ht = elim (Bool-cases (has_key key line)) [
    | inl hit ↦
        let new = setting key val in
        let hn = NoNul-setting key val hk hv in
        let text' = text ++ (new ++ (b'\n' ∷ [])) in
        let ht' : NoNul text' = All-append _ text (new ++ (b'\n' ∷ [])) ht (NoNul-line new hn) in
        rw hit (
          ap (λ o. rewrite_lines key val lines o (found || true))
            (append_setting-cut key val text hk hv ht)
          ∙ rewrite_lines-cut lines text' (found || true) hl ht'
          ∙ ap cut (line_assoc text new (updated_lines key val lines (found || true))))
    | inr miss ↦
        let text' = text ++ (line ++ (b'\n' ∷ [])) in
        let ht' : NoNul text' = All-append _ text (line ++ (b'\n' ∷ [])) ht (NoNul-line line h) in
        rw miss (
          ap (λ o. rewrite_lines key val lines o (found || false)) (append_line-cut line text h ht)
          ∙ rewrite_lines-cut lines text' (found || false) hl ht'
          ∙ ap cut (line_assoc text line (updated_lines key val lines (found || false))))
  ]

-- The lines of a C string are C strings, and hold no newline.
pub NoNul-split_lines : (s : Bytes) → NoNul s → All NoNul (split_lines s)
unfolding split_lines
NoNul-split_lines [] h = tt
NoNul-split_lines (c ∷ s) (hc, h) = first_line c (split_lines s) hc (NoNul-split_lines s h)
  where
    first_line :
        (c : ℕ) (ls : List Bytes)
        → c ≢ 0
        → All NoNul ls
        → All NoNul (if c == b'\n' then [] ∷ ls else cons_first c ls)
    first_line c [] hc h = ground arith
    first_line c (l ∷ ls) hc (hl, h) = ground arith

-- The file that is written for the file that was read.
unfoldable pub updated : Bytes → Bytes → Bytes → Bytes
updated key val buf = join_lines (updated_lines key val (split_lines (cstr buf)) false)

-- For a key and a value without NUL, the text that `config_update` makes of what it read is the
-- lines of the file, with every line of the key replaced by the setting, and the setting at the end
-- where no line had the key, cut at 8191 bytes.
pub update_text-cut :
    (key val buf : Bytes)
    → NoNul key
    → NoNul val
    → update_text key val buf ≡ take (buffer_size - 1) (updated key val buf)
unfolding update_text updated
update_text-cut key val buf hk hv =
    rewrite_lines-cut key val hk hv (split_lines (cstr buf)) [] false
      (NoNul-split_lines (cstr buf) (cstr-NoNul buf)) tt

-- A file that fits the buffer is written whole.
pub update_text-updated :
    (key val buf : Bytes)
    → NoNul key
    → NoNul val
    → length (updated key val buf) < buffer_size
    → update_text key val buf ≡ updated key val buf
update_text-updated key val buf hk hv h =
    update_text-cut key val buf hk hv
    ∙ take-all (buffer_size - 1) (updated key val buf) (omega arith)
