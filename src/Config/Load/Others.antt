-- ===== src/Config/Load/Others.antt =====
-- Setting one key leaves every other field as the file had it.
use x3d_toggle_main.Prelude.{
  ◌≡◌, sym, ap, ◌∙◌, inl, inr, Bool, true, false, ◌||◌, some, List, [], ◌∷◌, ◌++◌, Bytes, cstr_self,
  NoNul, deref, drop, length, All, arith, Bool-cases, Option-cases,
}
use x3d_toggle_main.Libc.Strings.{strlen}
use x3d_toggle_main.Libc.Strings.Compare.{strlen-cstr}
use x3d_toggle_main.Libc.Strings.Equal.{starts_with, starts_with_iff}
use x3d_toggle_main.Config.Fields.{Field, key_name, load_fields, affinity_level}
use x3d_toggle_main.Config.Update.{has_key}
use x3d_toggle_main.Config.Update.Laws.{setting, updated_lines}
use x3d_toggle_main.Config.Load.{
  parse_line, find_field, same_field, DaemonConfig, assign, Reals, load_pair, load_line, load_lines,
}
use x3d_toggle_main.Config.Load.Find.{IsKey-key_name, find_field-key_name}
use x3d_toggle_main.Config.Load.Assign.{parse_line-setting}

value_behind : (l : Bytes) → deref l ≡ b'=' → l ≡ b'=' ∷ drop 1 l
value_behind [] h = absurd (omega arith)
value_behind (c ∷ l) h = ground (arith, h)

-- A line that has the key is a setting of it.
has_key_sound :
    (key ln : Bytes)
    → NoNul key
    → NoNul ln
    → has_key key ln ≡ true
    → ln ≡ setting key (drop 1 (drop (length key) ln))
unfolding has_key
has_key_sound key ln hk hl h =
    let len : strlen (some key) ≡ length key = strlen-cstr key ∙ ap length (cstr_self key hk) in
    let starts : starts_with ln key ≡ true = ground (arith, h) in
    let equals : deref (drop (strlen (some key)) ln) ≡ b'=' = ground (arith, h) in
    let whole = (starts_with_iff ln key hl hk).0 starts in
    let behind = value_behind (drop (length key) ln) (rw len at equals) in
    whole ∙ ap (λ t. key ++ t) behind

module _ (reals : Reals) (f g : Field) (loaded : same_field f affinity_level ≡ false)
    (differs : same_field g f ≡ false) where
  open reals use {Real}

  setting-other :
      (cfg : DaemonConfig Real) (val : Bytes)
      → (load_line reals cfg (setting (key_name f) val)).field g ≡ cfg.field g
  unfolding load_line load_pair assign
  setting-other cfg val =
      let parsed = parse_line-setting (key_name f) val (IsKey-key_name f) in
      ground (arith, parsed, find_field-key_name f, loaded, differs)

  -- What a line does to a field depends on nothing but that field.
  load_line-local :
      (a b : DaemonConfig Real) (ln : Bytes)
      → a.field g ≡ b.field g
      → (load_line reals a ln).field g ≡ (load_line reals b ln).field g
  unfolding load_line load_pair assign
  load_line-local a b ln e = elim (Option-cases (parse_line ln)) [
    | inl lost ↦ ground (arith, lost, e)
    | inr ((key, val), parsed) ↦ elim (Option-cases (find_field key load_fields)) [
      | inl lost ↦ ground (arith, parsed, lost, e)
      | inr (h, found) ↦ ground (arith, parsed, found, e)
    ]
  ]

  pub load_lines-others :
      (lines : List Bytes) (a b : DaemonConfig Real) (val : Bytes) (found : Bool)
      → All NoNul lines
      → a.field g ≡ b.field g
      → (load_lines reals a (updated_lines (key_name f) val lines found)).field g
        ≡ (load_lines reals b lines).field g
  unfolding load_lines updated_lines
  load_lines-others [] a b val true hl e = e
  load_lines-others [] a b val false hl e = setting-other a val ∙ e
  load_lines-others (ln ∷ lines) a b val found (hn, hl) e =
      elim (Bool-cases (has_key (key_name f) ln)) [
        | inl hit ↦
            let old = drop 1 (drop (length (key_name f)) ln) in
            let nf = (IsKey-key_name f).no_nul in
            let same : (load_line reals b ln).field g ≡ b.field g =
              ap (λ l. (load_line reals b l).field g) (has_key_sound (key_name f) ln nf hn hit)
              ∙ setting-other b old in
            rw hit (
              load_lines-others lines (load_line reals a (setting (key_name f) val))
                (load_line reals b ln) val (found || true) hl (setting-other a val ∙ e ∙ sym same))
        | inr miss ↦ rw miss (
            load_lines-others lines (load_line reals a ln) (load_line reals b ln) val
              (found || false) hl (load_line-local a b ln e))
      ]
