-- ===== src/Libc/Bounded.antt =====
-- The two ways in which the program fills a buffer of a fixed size: `strlcat_local` of src/libc.c,
-- and `printf_sn` with "%s" and "%d", which scripts/framework/xui.sh writes out as build/xui.c. A
-- buffer is the C string that it holds.
pub mod Append
pub mod Decimal
use mathlib.Core.Logic.{dite}
use mathlib.Core.List.{reverse}
use mathlib.Core.WellFounded.{Acc, WellFounded}
use native.Mathlib.Decide.{dec_lt}
use x3d_toggle_main.Prelude.{
  ℕ, zero, suc, ◌+◌, ◌-◌, ◌/◌, ◌%◌, ◌<◌, [], ◌∷◌, ◌++◌, some, ltb, leb, ◌==◌, if◌then◌else◌, ℤ, pos,
  negsuc, Bytes, cstr, take, arith,
}
use x3d_toggle_main.Libc.Strings.{strlen}

-- The string that `dst` holds afterwards, and the result.
unfoldable pub strlcat_local : Bytes → Bytes → ℕ → Bytes × ℕ
strlcat_local dst src size =
    let dlen = strlen (some dst) in
    let slen = strlen (some src) in
    if leb size dlen
    then (cstr dst, size + slen)
    else let res = dlen + slen in
      let copy = if leb size res then size - dlen - 1 else slen in
      (cstr dst ++ take copy (cstr src), res)

-- `printf_sn(buf, size, "%s", s)`: at most `size - 1` bytes
unfoldable pub printf_s : ℕ → Bytes → Bytes
printf_s size s = take (size - 1) (cstr s)

Acc-below : (k n : ℕ) → n < k → Acc ◌<◌ n
Acc-below zero n h = elim h [ ]
Acc-below (suc k) n h = Acc.intro n (λ m hm. Acc-below k m (omega arith))

pub lt_wf : WellFounded ◌<◌
unfolding Acc-below
lt_wf = record { apply = λ n. Acc-below (suc n) n (omega arith) }

pub below_tenth : (n : ℕ) → 0 < n → n / 10 < n
below_tenth n h = omega (arith, h)

-- `while (n != 0)` of `_xui_itoa` in base 10: the digits as they are stored, the last one first
digits_loop : (n : ℕ) → Acc ◌<◌ n → Bytes
digits_loop n (Acc.intro _ smaller) =
    dite (dec_lt 0 n)
      (λ h. (b'0' + n % 10) ∷ digits_loop (n / 10) (smaller (n / 10) (below_tenth n h))) (λ _. [])

pub stored_digits : ℕ → Bytes
unfolding digits_loop lt_wf dec_lt
stored_digits n = digits_loop n (lt_wf.apply n)

-- `_xui_itoa(n, s, 10)`: a final `_xui_rev` puts the first digit, or the sign, in front
unfoldable pub itoa : ℤ → Bytes
unfolding stored_digits
itoa (pos n) = if n == 0 then b'0' ∷ [] else reverse (stored_digits n)
itoa (negsuc n) = reverse (stored_digits (suc n) ++ b'-' ∷ [])

-- `printf_sn(buf, size, "%d", n)`
unfoldable pub printf_d : ℕ → ℤ → Bytes
printf_d size n = take (size - 1) (itoa n)
