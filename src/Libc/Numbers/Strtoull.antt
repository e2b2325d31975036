-- ===== src/Libc/Numbers/Strtoull.antt =====
-- `strtoull` against the number that the digits spell.
use x3d_toggle_main.Prelude.{
  ℕ, ◌+◌, ◌-◌, ◌*◌, ◌<◌, ◌^◌, ◌≡◌, refl, true, false, [], ◌∷◌, ◌++◌, Bytes, deref, All, arith,
  length,
}
use x3d_toggle_main.Libc.Numbers.{is_digit, strtoull_digit, strtoull_loop, strtoull, skip_blanks}
use x3d_toggle_main.Libc.Numbers.Digits.{value_from, le-value_from, digit_run}
use x3d_toggle_main.Libc.Numbers.Atoi.{dec_digit, dec_value}

loop-stops :
    (rest : Bytes) (r : ℕ) → is_digit (deref rest) ≡ false → strtoull_loop 10 rest r ≡ (r, rest)
unfolding strtoull_loop strtoull_digit
loop-stops [] r e = refl
loop-stops (c ∷ rest) r e = ground (arith, e)

loop-digits :
    (xs rest : Bytes) (r : ℕ)
    → All (λ c. is_digit c ≡ true) xs
    → is_digit (deref rest) ≡ false
    → value_from 10 r (digit_run dec_digit 10 xs) < 2 ^ 64
    → strtoull_loop 10 (xs ++ rest) r ≡ (value_from 10 r (digit_run dec_digit 10 xs), rest)
unfolding strtoull_loop strtoull_digit
loop-digits [] rest r d e h = loop-stops rest r e
loop-digits (c ∷ xs) rest r (hc, d) e h =
    let m = r * 10 + (c - b'0') in
    ground (arith, hc, le-value_from 10 m (digit_run dec_digit 10 xs), loop-digits xs rest m d e)

-- Behind one blank: the number that the digits spell where it has 64 bits, and what follows them.
pub strtoull-digits :
    (xs rest : Bytes)
    → 0 < length xs
    → All (λ c. is_digit c ≡ true) xs
    → is_digit (deref rest) ≡ false
    → dec_value xs < 2 ^ 64
    → strtoull (b' ' ∷ (xs ++ rest)) 10 ≡ (dec_value xs, rest)
unfolding strtoull skip_blanks
strtoull-digits [] rest l d e h = absurd (omega arith)
strtoull-digits (c ∷ xs) rest l (hc, d) e h =
    let value = loop-digits (c ∷ xs) rest 0 (hc, d) e h in ground (arith, hc, value)
