-- ===== src/Config/Load/Find.antt =====
-- The keys of the fields, and where `config_load` finds them.
use x3d_toggle_main.Prelude.{
  ◌≡◌, ◌≢◌, refl, inl, inr, Bool, true, not, ◌&&◌, none, some, List, [], ◌∷◌, ◌==◌, if◌then◌else◌,
  Bytes, NoNul, Lacks, deref, arith, Bool-cases,
}
use x3d_toggle_main.Libc.Strings.{strcmp}
use x3d_toggle_main.Libc.Strings.Equal.{str_eq}
use x3d_toggle_main.Config.Fields.{Field, key_name, load_fields, polling_interval, affinity_level}
use x3d_toggle_main.Config.Load.{find_field, same_field}

-- A key that a line can carry: no NUL and no `=`, and the line is not a comment.
abbrev is_key : Bytes → Bool
is_key [] = true
is_key (c ∷ s) = not (c == 0) && not (c == b'=') && not (c == b'\n') && is_key s

abbrev starts_key : Bytes → Bool
starts_key s = not (deref s == b'#') && not (deref s == 0) && is_key s

starts_key_name : (f : Field) → starts_key (key_name f) ≡ true
unfolding key_name
starts_key_name polling_interval = refl
starts_key_name _ = refl

is_key-All : (s : Bytes) → is_key s ≡ true → NoNul s × Lacks b'=' s × Lacks b'\n' s
is_key-All [] h = (tt, tt, tt)
is_key-All (c ∷ s) h =
    let (a, b, d) = is_key-All s (ground arith) in
    ((ground arith, a), (ground arith, b), (ground arith, d))

-- What every key of the source satisfies.
pub record IsKey (key : Bytes) : Type 0 where
  pub no_nul : NoNul key
  pub no_equals : Lacks b'=' key
  pub no_newline : Lacks b'\n' key
  pub not_comment : deref key ≢ b'#'
  pub not_empty : deref key ≢ 0

pub IsKey-key_name : (f : Field) → IsKey (key_name f)
IsKey-key_name f =
    let e = starts_key_name f in
    let (a, b, d) = is_key-All (key_name f) (ground (arith, e)) in
    record {
      no_nul = a;
      no_equals = b;
      no_newline = d;
      not_comment = ground (arith, e);
      not_empty = ground (arith, e);
    }

-- AFFINITY_LEVEL is the only key that `config_get` knows and `config_load` does not.
pub find_field-key_name :
    (f : Field)
    → find_field (key_name f) load_fields ≡ (if same_field f affinity_level then none else some f)
unfolding find_field same_field load_fields key_name str_eq strcmp
find_field-key_name polling_interval = refl
find_field-key_name _ = refl

-- A key that is found is the key of the field.
pub find_field_sound :
    (key : Bytes) (fs : List Field) (f : Field)
    → find_field key fs ≡ some f
    → str_eq key (key_name f) ≡ true
unfolding find_field
find_field_sound key [] f e = cc
find_field_sound key (g ∷ fs) f e = elim (Bool-cases (str_eq key (key_name g))) [
  | inl hit ↦ ground (arith, hit)
  | inr miss ↦ find_field_sound key fs f (ground (arith, miss))
]
