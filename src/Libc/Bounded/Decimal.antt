-- ===== src/Libc/Bounded/Decimal.antt =====
-- "%d" of `printf_sn` writes the decimal digits of a number, which `atoi` reads back.
use mathlib.Core.Logic.{dif_pos, dif_neg}
use mathlib.Core.List.{reverse, reverse-cons, reverse-append}
use native.Mathlib.Bridge.{le_prop}
use native.Mathlib.Numerals.{unary_clauses}
use mathlib.Core.WellFounded.{Acc}
use native.Mathlib.Decide.{dec_lt}
use x3d_toggle_main.Prelude.{
  ℕ, zero, suc, ◌+◌, ◌-◌, ◌*◌, ◌/◌, ◌%◌, ◌≤◌, ◌<◌, ◌^◌, ◌≡◌, refl, ap, ◌∙◌, true, false, inl, inr,
  false, deref, [], ◌∷◌, ◌++◌, ◌==◌, ℤ, pos, neg, negsuc, Bytes, length, length-append, take-all,
  sym, All, All-append, Bool-cases, arith,
}
use x3d_toggle_main.Libc.Bounded.{below_tenth, digits_loop, stored_digits, lt_wf, itoa, printf_d}
use x3d_toggle_main.Libc.Numbers.{is_digit, atoi}
use x3d_toggle_main.Libc.Numbers.Digits.{value_from, digit_run}
use x3d_toggle_main.Libc.Numbers.Atoi.{dec_digit, dec_value, atoi-numeral, AtoiFollows}

abbrev AllDigits : Bytes → Type 0
AllDigits = All (λ c. is_digit c ≡ true)

-- One more digit at the end.
dec_value-append :
    (xs : Bytes) (r d : ℕ)
    → AllDigits xs
    → d < 10
    → value_from 10 r (digit_run dec_digit 10 (xs ++ ((b'0' + d) ∷ [])))
      ≡ value_from 10 r (digit_run dec_digit 10 xs) * 10 + d
dec_value-append [] r d h hd = ground (arith, hd)
dec_value-append (x ∷ xs) r d (hx, h) hd =
    ground (arith, hx, hd, dec_value-append xs (r * 10 + (x - b'0')) d h hd)

-- the digits as they are stored: they are digits, and spell the number from the last one on
digits_loop_lem :
    (n : ℕ) (w : Acc ◌<◌ n)
    → All (λ c. is_digit c ≡ true) (reverse (digits_loop n w))
      × (dec_value (reverse (digits_loop n w)) ≡ n)
unfolding digits_loop
digits_loop_lem n (Acc.intro _ smaller) = elim (dec_lt 0 n) [
  | no h ↦ rw (dif_neg (dec_lt 0 n) h) (tt, omega (arith, h))
  | yes h ↦
      let c = b'0' + n % 10 in
      let rest = digits_loop (n / 10) (smaller (n / 10) (below_tenth n h)) in
      let ih = digits_loop_lem (n / 10) (smaller (n / 10) (below_tenth n h)) in
      let last = dec_value-append (reverse rest) 0 (n % 10) ih.0 (omega arith) in
      rw (dif_pos (dec_lt 0 n) le_prop h, reverse-cons c rest)
        (All-append _ (reverse rest) (c ∷ []) ih.0 (ground arith, tt), last ∙ omega (arith, ih.1))
]

pub stored_digits_lem :
    (n : ℕ)
    → All (λ c. is_digit c ≡ true) (reverse (stored_digits n))
      × (dec_value (reverse (stored_digits n)) ≡ n)
unfolding stored_digits
stored_digits_lem n = digits_loop_lem n (lt_wf.apply n)

-- What follows the digits does not add to them.
digit_run-append :
    (xs rest : Bytes)
    → AllDigits xs
    → is_digit (deref rest) ≡ false
    → digit_run dec_digit 10 (xs ++ rest) ≡ digit_run dec_digit 10 xs
digit_run-append [] [] h e = refl
digit_run-append [] (c ∷ rest) h e = ground (arith, e)
digit_run-append (x ∷ xs) rest (hx, h) e = ground (arith, hx, digit_run-append xs rest h e)

-- What "%d" writes for a number that is not negative: digits, at least one, that spell it.
pub itoa_lem :
    (n : ℕ)
    → All (λ c. is_digit c ≡ true) (itoa (pos n))
      × (dec_value (itoa (pos n)) ≡ n)
      × (0 < length (itoa (pos n)))
unfolding itoa
itoa_lem n = elim (Bool-cases (n == 0)) [
  | inl e ↦ rw e ((refl, tt), ground (arith, e), omega arith)
  | inr e ↦
      let spelt = stored_digits_lem n in
      rw e (spelt.0, spelt.1, not_empty (reverse (stored_digits n)) (ground (arith, e)) spelt.1)
]
  where
    not_empty : (xs : Bytes) → 0 < n → dec_value xs ≡ n → 0 < length xs
    not_empty [] h e = omega arith
    not_empty (x ∷ xs) h e = omega arith

digit_follows : (p : Bytes) → All (λ c. is_digit c ≡ true) p → AtoiFollows false p
digit_follows [] h = ground arith
digit_follows (c ∷ p) (hc, h) = ground (arith, hc)

neg-suc : (n : ℕ) → neg (suc n) ≡ negsuc n
neg-suc n = ground arith

-- An `int` other than the least one.
abbrev pub IsShort : ℤ → Type 0
IsShort (pos n) = n < 2 ^ 31
IsShort (negsuc n) = suc n < 2 ^ 31

-- What "%d" writes for an `int` other than the least one, `atoi` reads as that number.
pub atoi-itoa : (z : ℤ) → IsShort z → atoi (itoa z) ≡ z
unfolding itoa
atoi-itoa (pos n) h = elim (Bool-cases (n == 0)) [
  | inl e ↦
      let zero_text : atoi (b'0' ∷ []) ≡ pos 0 = unfold atoi in refl in
      rw e (zero_text ∙ ground (arith, e))
  | inr e ↦
      let spelt = stored_digits_lem n in
      rw e (
        atoi-numeral [] false (reverse (stored_digits n)) tt (digit_follows _ spelt.0)
          (omega (arith, spelt.1, h))
        ∙ ap pos spelt.1)
]
atoi-itoa (negsuc n) h =
    let spelt = stored_digits_lem (suc n) in
    rw (reverse-append (stored_digits (suc n)) (b'-' ∷ [])) (
      atoi-numeral [] true (reverse (stored_digits (suc n))) tt tt (omega (arith, spelt.1, h))
      ∙ ap neg spelt.1
      ∙ neg-suc n)

digits_follow :
    (xs rest : Bytes)
    → 0 < length xs
    → All (λ c. is_digit c ≡ true) xs
    → AtoiFollows false (xs ++ rest)
digits_follow [] rest h d = absurd (omega arith)
digits_follow (c ∷ xs) rest h (hc, d) = ground (arith, hc)

-- The same with something behind the number that does not start with a digit.
pub atoi-itoa-append :
    (n : ℕ) (rest : Bytes)
    → n < 2 ^ 31
    → is_digit (deref rest) ≡ false
    → atoi (itoa (pos n) ++ rest) ≡ pos n
atoi-itoa-append n rest h e =
    let spelt = itoa_lem n in
    let value : dec_value (itoa (pos n) ++ rest) ≡ n =
      ap (value_from 10 0) (digit_run-append (itoa (pos n)) rest spelt.0 e) ∙ spelt.1 in
    atoi-numeral [] false (itoa (pos n) ++ rest) tt
      (digits_follow (itoa (pos n)) rest spelt.2 spelt.0) (omega (arith, value, h))
    ∙ ap pos value

pow_ten : (k : ℕ) → 10 ^ suc k ≡ 10 * 10 ^ k
pow_ten k = simp unary_clauses (omega arith)

length-digits_loop : (k n : ℕ) (w : Acc ◌<◌ n) → n < 10 ^ k → length (digits_loop n w) ≤ k
unfolding digits_loop
length-digits_loop zero n (Acc.intro _ smaller) h =
    let none_left : 10 ^ 0 ≡ 1 = simp unary_clauses refl in
    let e : n ≡ 0 = omega (arith, h, none_left) in
    rw (dif_neg (dec_lt 0 n) (λ p. omega (arith, p, e))) (omega arith)
length-digits_loop (suc k) n (Acc.intro _ smaller) h = elim (dec_lt 0 n) [
  | no e ↦ rw (dif_neg (dec_lt 0 n) e) (omega arith)
  | yes e ↦
      let below : n / 10 < 10 ^ k = omega (arith, h, pow_ten k) in
      rw (dif_pos (dec_lt 0 n) le_prop e)
        (omega (arith, length-digits_loop k (n / 10) (smaller (n / 10) (below_tenth n e)) below))
]

length-reverse : (xs : Bytes) → length (reverse xs) ≡ length xs
length-reverse [] = refl
length-reverse (x ∷ xs) =
    rw (reverse-cons x xs) (omega (arith, length-append (reverse xs) (x ∷ []), length-reverse xs))

length-stored_digits : (n : ℕ) → n < 2 ^ 32 → length (stored_digits n) ≤ 10
unfolding stored_digits
length-stored_digits n h = length-digits_loop 10 n (lt_wf.apply n) (omega (arith, h))

pub length-itoa : (z : ℤ) → IsShort z → length (itoa z) ≤ 11
unfolding itoa
length-itoa (pos n) h = elim (Bool-cases (n == 0)) [
  | inl e ↦ rw e (omega arith)
  | inr e ↦
      rw e
        (omega (arith, length-reverse (stored_digits n), length-stored_digits n (omega (arith, h))))
]
length-itoa (negsuc n) h = omega (
  arith,
  length-reverse (stored_digits (suc n) ++ b'-' ∷ []),
  length-append (stored_digits (suc n)) (b'-' ∷ []),
  length-stored_digits (suc n) (omega (arith, h)),
)

-- Two numbers that "%d" writes alike, into a buffer of more than 11 bytes, are the same.
pub printf_d_inj :
    (size : ℕ) (a b : ℤ)
    → 12 ≤ size
    → IsShort a
    → IsShort b
    → printf_d size a ≡ printf_d size b
    → a ≡ b
unfolding printf_d
printf_d_inj size a b room ha hb e =
    let whole_a = take-all (size - 1) (itoa a) (omega (arith, length-itoa a ha)) in
    let whole_b = take-all (size - 1) (itoa b) (omega (arith, length-itoa b hb)) in
    sym (atoi-itoa a ha) ∙ ap atoi (sym whole_a ∙ e ∙ whole_b) ∙ atoi-itoa b hb

-- A number of at most 32 bits is written whole.
pub printf_d-whole : (size n : ℕ) → 12 ≤ size → n < 2 ^ 31 → printf_d size (pos n) ≡ itoa (pos n)
unfolding printf_d
printf_d-whole size n room h =
    take-all (size - 1) (itoa (pos n)) (omega (arith, length-itoa (pos n) h))

pub itoa-flag : (itoa (pos 0) ≡ b'0' ∷ []) × (itoa (pos 1) ≡ b'1' ∷ [])
unfolding itoa stored_digits digits_loop lt_wf dec_lt
itoa-flag = (refl, refl)
