-- ===== src/Libc/Numbers/Strtol.antt =====
-- `strtol` against the number that the digits spell: exact when it fits, and reported as out of
-- range, with `*e` left unwritten, exactly when it does not.
use x3d_toggle_main.Prelude.{
  ℕ, ◌+◌, ◌-◌, ◌*◌, ◌/◌, ◌≤◌, ◌<◌, ◌≡◌, refl, ap, ◌∙◌, inl, inr, Bool, true, false, none, some, [],
  ◌∷◌, ◌++◌, leb, ltb, ◌==◌, if◌then◌else◌, pos, negsuc, neg, Bytes, deref, length, arith,
  Bool-cases, All, ◌⊎◌, ◌≢◌, Option-cases,
}
use native.Mathlib.Nat.{le-div_iff_mul-le, div-lt_iff_lt-mul}
use x3d_toggle_main.Libc.Numbers.{
  strtol_digit, Scan, strtol_loop, long_max, StrtolResult, strtol_limit, strtol_unsigned,
  strtol_signed, strtol, skip_blanks, strtol_finish,
}
use x3d_toggle_main.Libc.Numbers.Digits.{
  value_from, le-value_from, digit_run, after_run, value_run_empty,
}

-- The guard of the source, `r > (limit - v) / b`, is the overflow of `r * b + v`.
guard_fits : (limit b v r : ℕ) → 0 < b → r * b + v ≤ limit → ltb ((limit - v) / b) r ≡ false
guard_fits limit b v r hb h =
    let fits : r ≤ (limit - v) / b = (le-div_iff_mul-le hb).1 (omega arith) in ground arith

guard_overflows :
    (limit b v r : ℕ) → 0 < b → v ≤ limit → limit < r * b + v → ltb ((limit - v) / b) r ≡ true
guard_overflows limit b v r hb hv h =
    let over : (limit - v) / b < r = (div-lt_iff_lt-mul hb).1 (omega arith) in ground arith

digit_nul : strtol_digit 0 ≡ none
unfolding strtol_digit
digit_nul = refl

module _ (limit b : ℕ) (hb : 0 < b) where
  -- As long as the number fits, the loop computes it and stops behind its digits.
  loop_fits :
      (p : Bytes) (r : ℕ)
      → value_from b r (digit_run strtol_digit b p) ≤ limit
      → strtol_loop limit b p r false ≡ record {
        r = value_from b r (digit_run strtol_digit b p);
        overflow = false;
        p = after_run strtol_digit b p;
      }
  unfolding strtol_loop
  loop_fits [] r h = refl
  loop_fits (c ∷ p) r h = elim (Option-cases (strtol_digit c)) [
    | inl e ↦ ground (arith, e)
    | inr (v, e) ↦
        let run = digit_run strtol_digit b p in
        ground (
          arith,
          e,
          digit_nul,
          guard_fits limit b v r hb,
          le-value_from b (r * b + v) run hb,
          loop_fits p (r * b + v),
        )
  ]

  -- The flag of an overflow stays set.
  loop_stuck : (p : Bytes) (r : ℕ) → (strtol_loop limit b p r true).overflow ≡ true
  unfolding strtol_loop
  loop_stuck [] r = refl
  loop_stuck (c ∷ p) r = elim (Option-cases (strtol_digit c)) [
    | inl e ↦ ground (arith, e)
    | inr (v, e) ↦ ground (arith, e, loop_stuck p r)
  ]

  loop_overflows :
      (p : Bytes) (r : ℕ)
      → b ≤ limit
      → r ≤ limit
      → limit < value_from b r (digit_run strtol_digit b p)
      → (strtol_loop limit b p r false).overflow ≡ true
  unfolding strtol_loop
  loop_overflows [] r hl hr h = absurd (omega arith)
  loop_overflows (c ∷ p) r hl hr h = elim (Option-cases (strtol_digit c)) [
    | inl e ↦ ground (arith, e)
    | inr (v, e) ↦ elim (Bool-cases (leb b v)) [
      | inl big ↦ ground (arith, e)
      | inr small ↦
          let hv : v < b = ground arith in
          elim (Bool-cases (ltb limit (r * b + v))) [
            | inl over ↦
                ground (arith, e, digit_nul, guard_overflows limit b v r hb, loop_stuck p r)
            | inr fits ↦
                ground
                  (arith, e, digit_nul, guard_fits limit b v r hb, loop_overflows p (r * b + v))
          ]
    ]
  ]

-- A sign as it may stand before the digits.
pub data Sign : Type 0 where
  unsigned plus minus : Sign

abbrev pub sign_text : Sign → Bytes
sign_text unsigned = []
sign_text plus = b'+' ∷ []
sign_text minus = b'-' ∷ []

abbrev pub is_minus : Sign → Bool
is_minus minus = true
is_minus _ = false

abbrev pub IsBlank : ℕ → Type 0
IsBlank c = (c ≡ b' ') ⊎ (c ≡ b'\t')

-- With no sign, what follows the blanks is itself neither a blank nor a sign.
abbrev pub Follows : Sign → Bytes → Type 0
Follows unsigned p = (deref p ≢ b' ') × (deref p ≢ b'\t') × (deref p ≢ b'-') × (deref p ≢ b'+')
Follows _ p = Unit

-- The magnitude that the decimal digits at the start of `p` spell.
abbrev pub magnitude : Bytes → ℕ
magnitude p = value_from 10 0 (digit_run strtol_digit 10 p)

abbrev pub after_digits : Bytes → Bytes
after_digits p = after_run strtol_digit 10 p

skip_blanks_lem :
    (pre : Bytes) (sg : Sign) (p : Bytes)
    → All IsBlank pre
    → Follows sg p
    → skip_blanks (pre ++ (sign_text sg ++ p)) ≡ sign_text sg ++ p
unfolding skip_blanks
skip_blanks_lem [] unsigned [] h f = refl
skip_blanks_lem [] unsigned (c ∷ p) h f = ground arith
skip_blanks_lem [] plus p h f = refl
skip_blanks_lem [] minus p h f = refl
skip_blanks_lem (c ∷ pre) sg p (hc, h) f = ground (arith, skip_blanks_lem pre sg p h f)

strtol_signed_lem :
    (sg : Sign) (p : Bytes)
    → Follows sg p
    → strtol_signed (sign_text sg ++ p) 10 ≡ strtol_unsigned (is_minus sg) p 10
unfolding strtol_signed
strtol_signed_lem unsigned p f = ground arith
strtol_signed_lem plus p f = refl
strtol_signed_lem minus p f = refl

-- What `strtol` has to answer for a numeral of this sign and magnitude, followed by `rest`.
abbrev pub strtol_result : Bool → ℕ → Bytes → StrtolResult
strtol_result negative n rest =
    if leb n (strtol_limit negative)
    then record { value = if negative then neg n else pos n; endptr = some rest; erange = false }
    else record {
      value = if negative then negsuc long_max else pos long_max;
      endptr = none;
      erange = true;
    }

finish_fits :
    (negative : Bool) (p rest : Bytes) (n : ℕ)
    → (length rest ≡ length p → n ≡ 0)
    → strtol_finish negative p (record { r = n; overflow = false; p = rest })
      ≡ record { value = if negative then neg n else pos n; endptr = some rest; erange = false }
unfolding strtol_finish
finish_fits negative p rest n h = elim (Bool-cases (length rest == length p)) [
  | inl same ↦ let e : n ≡ 0 = h (ground arith) in rw (same, e)
  | inr further ↦ rw further
]

finish_overflows :
    (negative : Bool) (p : Bytes) (s : Scan)
    → s.overflow ≡ true
    → strtol_finish negative p s ≡ record {
      value = if negative then negsuc long_max else pos long_max;
      endptr = none;
      erange = true;
    }
unfolding strtol_finish
finish_overflows negative p s h = rw h

ten-le-limit : (negative : Bool) → 10 ≤ strtol_limit negative
ten-le-limit true = omega arith
ten-le-limit false = omega arith

strtol_unsigned_lem :
    (negative : Bool) (p : Bytes)
    → strtol_unsigned negative p 10 ≡ strtol_result negative (magnitude p) (after_digits p)
unfolding strtol_unsigned
strtol_unsigned_lem negative p = elim (Bool-cases (leb (magnitude p) (strtol_limit negative))) [
  | inl fits ↦
      let hit : magnitude p ≤ strtol_limit negative = ground arith in
      rw (fits, loop_fits (strtol_limit negative) 10 (omega arith) p 0 hit)
        (finish_fits negative p (after_digits p) (magnitude p) (value_run_empty strtol_digit 10 p))
  | inr over ↦
      let miss : strtol_limit negative < magnitude p = ground arith in
      rw over (
        finish_overflows negative p _ (
          loop_overflows (strtol_limit negative) 10 (omega arith) p 0 (ten-le-limit negative)
            (omega arith) miss))
]

-- In base 10, behind blanks and an optional sign, where with no sign the rest starts with neither a
-- blank nor a sign: `strtol` returns the number that the digits at the start of the rest spell, with
-- `*e` behind the last digit, if it lies in the range of a `long`; otherwise it returns the end of
-- that range, sets ERANGE, and leaves `*e` unwritten.
pub strtol-numeral :
    (pre : Bytes) (sg : Sign) (p : Bytes)
    → All IsBlank pre
    → Follows sg p
    → strtol (pre ++ (sign_text sg ++ p)) 10
      ≡ strtol_result (is_minus sg) (magnitude p) (after_digits p)
unfolding strtol
strtol-numeral pre sg p h f =
    ap (λ q. strtol_signed q 10) (skip_blanks_lem pre sg p h f)
    ∙ strtol_signed_lem sg p f
    ∙ strtol_unsigned_lem (is_minus sg) p
