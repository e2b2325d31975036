-- ===== src/Socket/Number/Range.antt =====
-- The numbers of SET_PARK, SET_UNPARK, SET_TDP and SET_EPP_CCD, by their size.
use x3d_toggle_main.Prelude.{
  ℕ, ◌-◌, ◌∙◌, ◌≤◌, ◌≡◌, refl, ap, false, some, [], ◌∷◌, ◌==◌, leb, if◌then◌else◌, Bytes, length,
  All, pos, arith, Bool-cases, inl, inr,
}
use x3d_toggle_main.Libc.Numbers.{strtol, strtol_digit, long_max}
use x3d_toggle_main.Libc.Numbers.Strtol.{
  unsigned, Follows, magnitude, after_digits, strtol_result, strtol-numeral,
}
use x3d_toggle_main.Socket.Number.{faulted, refused, number, in_int, check_number, parse_number}

-- a text of digits
abbrev pub Digits : Bytes → Type 0
Digits = All (λ c. (b'0' ≤ c) × (c ≤ b'9'))

digit_value : (c : ℕ) → b'0' ≤ c → c ≤ b'9' → strtol_digit c ≡ some (c - b'0')
unfolding strtol_digit
digit_value c l u = ground arith

Digits-end : (p : Bytes) → Digits p → after_digits p ≡ []
Digits-end [] h = refl
Digits-end (c ∷ p) ((l, u), h) = ground (arith, digit_value c l u, Digits-end p h)

Digits-Follows : (p : Bytes) → Digits p → Follows unsigned p
Digits-Follows [] h = (omega arith, omega arith, omega arith, omega arith)
Digits-Follows (c ∷ p) ((l, u), h) = (omega arith, omega arith, omega arith, omega arith)

-- What the branch does with a text of at least one digit, by the number that it spells: up to
-- INT_MAX the number is taken, up to LONG_MAX it is refused, and beyond that the daemon reads
-- through a null pointer.
pub parse_number-Digits :
    (c : ℕ) (p : Bytes)
    → Digits (c ∷ p)
    → parse_number (c ∷ p) ≡ (
        let n = magnitude (c ∷ p) in
        if leb n 2147483647 then number (pos n) else if leb n long_max then refused else faulted)
unfolding parse_number check_number in_int
parse_number-Digits c p h =
    let n = magnitude (c ∷ p) in
    let parsed : strtol (c ∷ p) 10 ≡ strtol_result false n [] =
      strtol-numeral [] unsigned (c ∷ p) tt (Digits-Follows (c ∷ p) h)
      ∙ ap (strtol_result false n) (Digits-end (c ∷ p) h) in
    ap (check_number (c ∷ p)) parsed ∙ by_size n
  where
    by_size :
        (n : ℕ)
        → check_number (c ∷ p) (strtol_result false n []) ≡ (
            if leb n 2147483647
            then number (pos n)
            else if leb n long_max
            then refused
            else faulted)
    by_size n =
        let some_digit : (0 == length (c ∷ p)) ≡ false = ground arith in
        elim (Bool-cases (leb n long_max)) [
          | inl fits ↦ elim (Bool-cases (leb n 2147483647)) [
            | inl small ↦ rw (fits, small, some_digit) refl
            | inr big ↦ rw (fits, big, some_digit) refl
          ]
          | inr over ↦
              let small : leb n 2147483647 ≡ false = ground (arith, over) in rw (over, small) refl
        ]
