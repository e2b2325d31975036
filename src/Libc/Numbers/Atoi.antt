-- ===== src/Libc/Numbers/Atoi.antt =====
-- `atoi` against the number that the digits spell.
use x3d_toggle_main.Prelude.{
  ℕ, ◌+◌, ◌-◌, ◌*◌, ◌%◌, ◌^◌, ◌≤◌, ◌<◌, ◌≡◌, ◌≢◌, refl, ap, ◌∙◌, inl, inr, Bool, true, false,
  Option, none, some, [], ◌∷◌, ◌++◌, if◌then◌else◌, pos, neg, int_mod, to_int, Bytes, deref, arith,
  Bool-cases, All,
}
use x3d_toggle_main.Libc.Numbers.{is_digit, atoi_loop, atoi_signed, atoi, skip_blanks}
use x3d_toggle_main.Libc.Numbers.Digits.{value_from, le-value_from, digit_run}
use x3d_toggle_main.Libc.Numbers.Strtol.{IsBlank}

abbrev pub dec_digit : ℕ → Option ℕ
dec_digit c = if is_digit c then some (c - b'0') else none

-- The magnitude of the decimal digits at the start of a text.
abbrev pub dec_value : Bytes → ℕ
dec_value p = value_from 10 0 (digit_run dec_digit 10 p)

atoi_loop_lem :
    (p : Bytes) (n : ℕ)
    → value_from 10 n (digit_run dec_digit 10 p) < int_mod
    → atoi_loop p n ≡ value_from 10 n (digit_run dec_digit 10 p)
unfolding atoi_loop
atoi_loop_lem [] n h = refl
atoi_loop_lem (c ∷ p) n h = elim (Bool-cases (is_digit c)) [
  | inr e ↦ ground (arith, e)
  | inl e ↦
      let m = n * 10 + (c - b'0') in
      ground (arith, e, atoi_loop_lem p m, le-value_from 10 m (digit_run dec_digit 10 p))
]

-- With no sign, what follows the blanks is neither a blank nor a minus sign.
abbrev pub AtoiFollows : Bool → Bytes → Type 0
AtoiFollows true p = Unit
AtoiFollows false p = (deref p ≢ b' ') × (deref p ≢ b'\t') × (deref p ≢ b'-')

abbrev pub minus_text : Bool → Bytes
minus_text negative = if negative then b'-' ∷ [] else []

skip_blanks_lem :
    (pre : Bytes) (negative : Bool) (p : Bytes)
    → All IsBlank pre
    → AtoiFollows negative p
    → skip_blanks (pre ++ (minus_text negative ++ p)) ≡ minus_text negative ++ p
unfolding skip_blanks
skip_blanks_lem [] false [] h f = refl
skip_blanks_lem [] false (c ∷ p) h f = ground arith
skip_blanks_lem [] true p h f = refl
skip_blanks_lem (c ∷ pre) negative p (hc, h) f = ground (arith, skip_blanks_lem pre negative p h f)

to_int-neg : (n : ℕ) → n ≤ 2 ^ 31 → to_int ((int_mod - n) % int_mod) ≡ neg n
to_int-neg n h = ground arith

atoi_signed_lem :
    (negative : Bool) (p : Bytes)
    → AtoiFollows negative p
    → dec_value p < 2 ^ 31
    → atoi_signed (minus_text negative ++ p)
      ≡ (if negative then neg (dec_value p) else pos (dec_value p))
unfolding atoi_signed
atoi_signed_lem true p f h =
    rw (atoi_loop_lem p 0 (omega arith)) (to_int-neg (dec_value p) (omega arith))
atoi_signed_lem false p f h = ground (arith, atoi_loop_lem p 0)

-- Behind blanks and an optional minus sign, where with no sign the rest starts with neither a blank
-- nor a minus sign: `atoi` returns the number that the digits at the start of the rest spell, when
-- its magnitude is below 2 ^ 31.
pub atoi-numeral :
    (pre : Bytes) (negative : Bool) (p : Bytes)
    → All IsBlank pre
    → AtoiFollows negative p
    → dec_value p < 2 ^ 31
    → atoi (pre ++ (minus_text negative ++ p))
      ≡ (if negative then neg (dec_value p) else pos (dec_value p))
unfolding atoi
atoi-numeral pre negative p h f lt =
    ap atoi_signed (skip_blanks_lem pre negative p h f) ∙ atoi_signed_lem negative p f lt

-- A flag with a bar behind it.
pub atoi-flag :
    (rest : Bytes) → (atoi (b'0' ∷ (b'|' ∷ rest)) ≡ pos 0) × (atoi (b'1' ∷ (b'|' ∷ rest)) ≡ pos 1)
unfolding atoi skip_blanks atoi_signed atoi_loop
atoi-flag rest = (refl, refl)
