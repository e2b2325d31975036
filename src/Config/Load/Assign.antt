-- ===== src/Config/Load/Assign.antt =====
-- What one line, and the lines of a file that `config_update` wrote, do to a field.
use x3d_toggle_main.Prelude.{
  ◌≡◌, ◌≢◌, refl, sym, ap, ◌∙◌, inl, inr, true, false, some, List, [], ◌∷◌, ◌++◌, Bytes, cstr,
  cstr_self, NoNul, deref, drop, length, drop-length-append, All, arith, Bool-cases, Option-cases,
}
use x3d_toggle_main.Libc.Strings.{strchr, strlen}
use x3d_toggle_main.Libc.Strings.Compare.{strlen-cstr}
use x3d_toggle_main.Libc.Strings.Search.{strchr-append, strchr-split}
use x3d_toggle_main.Libc.Strings.Equal.{str_eq_iff, starts_with_iff, take-minus-append}
use x3d_toggle_main.Config.Fields.{Field, key_name, kind, load_fields, affinity_level}
use x3d_toggle_main.Config.Update.{has_key}
use x3d_toggle_main.Config.Update.Laws.{setting, updated_lines}
use x3d_toggle_main.Config.Load.{
  parse_line, find_field, same_field, DaemonConfig, assign, Reals, load_value, load_pair, load_line,
  load_lines,
}
use x3d_toggle_main.Config.Load.Find.{IsKey, IsKey-key_name, find_field-key_name, find_field_sound}

deref-setting : (key val : Bytes) → deref key ≢ 0 → deref (setting key val) ≡ deref key
deref-setting [] val h = absurd (h refl)
deref-setting (c ∷ key) val h = refl

-- A setting is read back as its key and its value.
pub parse_line-setting :
    (key val : Bytes) → IsKey key → parse_line (setting key val) ≡ some (key, val)
unfolding parse_line
parse_line-setting key val k =
    let found = strchr-append key val b'=' (omega arith) k.no_nul k.no_equals in
    ground (
      arith,
      found,
      deref-setting key val k.not_empty,
      take-minus-append key (b'=' ∷ val),
      k.not_comment,
      k.not_empty,
    )

-- A line that is read as a key and a value is their setting.
parse_line_sound : (ln key val : Bytes) → parse_line ln ≡ some (key, val) → ln ≡ setting key val
unfolding parse_line
parse_line_sound ln key val e = elim (Option-cases (strchr (some ln) b'=')) [
  | inl lost ↦ ground (arith, lost)
  | inr (p, found) ↦ ground (arith, found, strchr-split ln p b'=' (omega arith) (omega arith) found)
]

-- `config_update` recognises the line of a setting.
has_key-setting :
    (key val : Bytes) → NoNul key → NoNul (setting key val) → has_key key (setting key val) ≡ true
unfolding has_key
has_key-setting key val hk hl =
    let len : strlen (some key) ≡ length key = strlen-cstr key ∙ ap length (cstr_self key hk) in
    let rest : drop (length key) (setting key val) ≡ b'=' ∷ val =
      drop-length-append key (b'=' ∷ val) in
    let starts = (starts_with_iff (setting key val) key hl hk).1 (ap (λ t. key ++ t) (sym rest)) in
    ground (arith, len, rest, starts)

NoNul-left : (xs ys : Bytes) → NoNul (xs ++ ys) → NoNul xs
NoNul-left [] ys h = tt
NoNul-left (x ∷ xs) ys (hx, h) = (hx, NoNul-left xs ys h)

-- A line that `config_load` would assign to the field is one that `config_update` replaces.
assigned_has_key :
    (f g : Field) (ln key val : Bytes)
    → NoNul ln
    → parse_line ln ≡ some (key, val)
    → find_field key load_fields ≡ some g
    → same_field f g ≡ true
    → has_key (key_name f) ln ≡ true
unfolding same_field
assigned_has_key f g ln key val hl parsed found same =
    let e : ln ≡ setting key val = parse_line_sound ln key val parsed in
    let hs : NoNul (setting key val) = rw e at hl in
    let hk : NoNul key = NoNul-left key (b'=' ∷ val) hs in
    let nf = (IsKey-key_name f).no_nul in
    let a : cstr (key_name f) ≡ cstr (key_name g) = (str_eq_iff (key_name f) (key_name g)).0 same in
    let b : cstr key ≡ cstr (key_name g) =
      (str_eq_iff key (key_name g)).0 (find_field_sound key load_fields g found) in
    let c : key ≡ key_name f = sym (cstr_self key hk) ∙ b ∙ sym a ∙ cstr_self (key_name f) nf in
    rw (e, ← c) (has_key-setting key val hk hs)

module _ (reals : Reals) (f : Field) (loaded : same_field f affinity_level ≡ false) where
  open reals use {Real}

  abbrev Loads : Bytes → DaemonConfig Real → Type 0
  Loads val cfg = cfg.field f ≡ load_value reals (kind f) val

  load_line-setting :
      (cfg : DaemonConfig Real) (val : Bytes)
      → Loads val (load_line reals cfg (setting (key_name f) val))
  unfolding load_line load_pair assign same_field
  load_line-setting cfg val =
      let parsed = parse_line-setting (key_name f) val (IsKey-key_name f) in
      let found = find_field-key_name f in
      let self = (str_eq_iff (key_name f) (key_name f)).1 refl in
      ground (arith, parsed, found, self, loaded)

  load_line-other :
      (cfg : DaemonConfig Real) (ln : Bytes)
      → NoNul ln
      → has_key (key_name f) ln ≡ false
      → (load_line reals cfg ln).field f ≡ cfg.field f
  unfolding load_line load_pair assign
  load_line-other cfg ln hl miss = elim (Option-cases (parse_line ln)) [
    | inl e ↦ ground (arith, e)
    | inr ((key, val), e) ↦ elim (Option-cases (find_field key load_fields)) [
      | inl lost ↦ ground (arith, e, lost)
      | inr (g, found) ↦ elim (Bool-cases (same_field f g)) [
        | inl same ↦ cc (miss, assigned_has_key f g ln key val hl e found same)
        | inr differs ↦ ground (arith, e, found, differs)
      ]
    ]
  ]

  -- Once the field is set, the rest of the file does not change it.
  load_lines-keeps :
      (lines : List Bytes) (cfg : DaemonConfig Real) (val : Bytes)
      → All NoNul lines
      → Loads val cfg
      → Loads val (load_lines reals cfg (updated_lines (key_name f) val lines true))
  unfolding load_lines updated_lines
  load_lines-keeps [] cfg val hl h = h
  load_lines-keeps (ln ∷ lines) cfg val (hn, hl) h = elim (Bool-cases (has_key (key_name f) ln)) [
    | inl hit ↦ rw hit (
        load_lines-keeps lines (load_line reals cfg (setting (key_name f) val)) val hl
          (load_line-setting cfg val))
    | inr miss ↦ rw miss (
        load_lines-keeps lines (load_line reals cfg ln) val hl (load_line-other cfg ln hn miss ∙ h))
  ]

  -- Whatever the file said before, loading the updated lines gives the field the new value.
  pub load_lines-updated :
      (lines : List Bytes) (cfg : DaemonConfig Real) (val : Bytes)
      → All NoNul lines
      → Loads val (load_lines reals cfg (updated_lines (key_name f) val lines false))
  unfolding load_lines updated_lines
  load_lines-updated [] cfg val hl = load_line-setting cfg val
  load_lines-updated (ln ∷ lines) cfg val (hn, hl) = elim (Bool-cases (has_key (key_name f) ln)) [
    | inl hit ↦ rw hit (
        load_lines-keeps lines (load_line reals cfg (setting (key_name f) val)) val hl
          (load_line-setting cfg val))
    | inr miss ↦ rw miss (load_lines-updated lines (load_line reals cfg ln) val hl)
  ]
