-- ===== src/Libc/Numbers.antt =====
-- src/libc.c: `atoi`, `strtol` and `strtoull`. An `int` is kept as its 32-bit pattern and an
-- `unsigned long long` modulo 2 ^ 64; `atoi` wraps where the source's `int` overflows.
pub mod Digits
pub mod Strtol
pub mod Atoi
pub mod Strtoull
use x3d_toggle_main.Prelude.{
  ℕ, ◌+◌, ◌-◌, ◌*◌, ◌/◌, ◌%◌, ◌^◌, Bool, true, false, not, ◌&&◌, ◌||◌, Option, none, some, [], ◌∷◌,
  ltb, leb, ◌==◌, if◌then◌else◌, ℤ, pos, negsuc, neg, int_mod, to_int, Bytes, deref, drop, length,
}

-- `while (*p == ' ' || *p == '\t') p++`
unfoldable pub skip_blanks : Bytes → Bytes
skip_blanks [] = []
skip_blanks (c ∷ p) = if c == b' ' || c == b'\t' then skip_blanks p else c ∷ p

abbrev pub is_digit : ℕ → Bool
is_digit c = leb b'0' c && leb c b'9'

-- `while (*p >= '0' && *p <= '9') n = n * 10 + (*p++ - '0')`, on the 32-bit pattern of `n`
atoi_loop : Bytes → ℕ → ℕ
atoi_loop [] n = n
atoi_loop (c ∷ p) n =
    let rest = atoi_loop p ((n * 10 + (c - b'0')) % int_mod) in if is_digit c then rest else n

-- behind the blanks
atoi_signed : Bytes → ℤ
atoi_signed p =
    if deref p == b'-'
    then to_int ((int_mod - atoi_loop (drop 1 p) 0) % int_mod)
    else to_int (atoi_loop p 0)

unfoldable pub atoi : Bytes → ℤ
unfolding skip_blanks atoi_signed atoi_loop
atoi p = atoi_signed (skip_blanks p)

abbrev pub long_max : ℕ
long_max = 2 ^ 63 - 1

-- What a call of `strtol` leaves behind: the result, `*e` where it is written, and whether `errno`
-- is set to ERANGE.
pub record StrtolResult : Type 0 where
  pub value : ℤ
  pub endptr : Option Bytes
  pub erange : Bool

-- the chain of tests that sets `v`; `none` is its `break`
unfoldable pub strtol_digit : ℕ → Option ℕ
strtol_digit c =
    if is_digit c
    then some (c - b'0')
    else if leb b'a' c && leb c b'z'
    then some (c - b'a' + 10)
    else if leb b'A' c && leb c b'Z'
    then some (c - b'A' + 10)
    else none

-- The variables that the digit loop changes.
pub record Scan : Type 0 where
  pub r : ℕ
  pub overflow : Bool
  pub p : Bytes

-- one digit of value `v`, read by the loop with the pointer behind it at `p`
strtol_step : ℕ → ℕ → ℕ → ℕ → Bool → Bytes → Scan
strtol_step limit b v r overflow p =
    let overflow' = overflow || ltb ((limit - v) / b) r in
    record { r = if overflow' then r else r * b + v; overflow = overflow'; p = p }

-- `while (*p)`
strtol_loop : ℕ → ℕ → Bytes → ℕ → Bool → Scan
unfolding strtol_step
strtol_loop limit b [] r overflow = record { r = r; overflow = overflow; p = [] }
strtol_loop limit b (c ∷ p) r overflow =
    let stop : Scan = record { r = r; overflow = overflow; p = c ∷ p } in
    if c == 0 then stop else elim (strtol_digit c) [
      | none ↦ stop
      | some v ↦
          let s = strtol_step limit b v r overflow p in
          let rest = strtol_loop limit b p s.r s.overflow in if leb b v then stop else rest
    ]

abbrev is_hex_prefix : Bytes → Bool
is_hex_prefix p = deref p == b'0' && (deref (drop 1 p) == b'x' || deref (drop 1 p) == b'X')

-- the base that the loop uses, and where the digits start
strtol_base : ℕ → Bytes → ℕ
strtol_base b p =
    if b == 0 then if is_hex_prefix p then 16 else if deref p == b'0' then 8 else 10 else b

strtol_start : ℕ → Bytes → Bytes
strtol_start b p =
    if b == 0
    then if is_hex_prefix p then drop 2 p else if deref p == b'0' then drop 1 p else p
    else if b == 16 && is_hex_prefix p
    then drop 2 p
    else p

abbrev pub strtol_limit : Bool → ℕ
strtol_limit negative = if negative then long_max + 1 else long_max

-- behind the digit loop; `start` is `digits_start`
strtol_finish : Bool → Bytes → Scan → StrtolResult
strtol_finish negative start s =
    let r = if length s.p == length start then 0 else s.r in
    if s.overflow
    then record {
      value = if negative then negsuc long_max else pos long_max;
      endptr = none;
      erange = true;
    }
    else record { value = if negative then neg r else pos r; endptr = some s.p; erange = false }

-- behind the sign
strtol_unsigned : Bool → Bytes → ℕ → StrtolResult
unfolding strtol_base strtol_start
strtol_unsigned negative p b =
    let start = strtol_start b p in
    strtol_finish negative start
      (strtol_loop (strtol_limit negative) (strtol_base b p) start 0 false)

-- behind the blanks
strtol_signed : Bytes → ℕ → StrtolResult
strtol_signed p b =
    if deref p == b'-'
    then strtol_unsigned true (drop 1 p) b
    else if deref p == b'+'
    then strtol_unsigned false (drop 1 p) b
    else strtol_unsigned false p b

unfoldable pub strtol : Bytes → ℕ → StrtolResult
unfolding skip_blanks strtol_signed strtol_unsigned strtol_finish strtol_loop
strtol p b = strtol_signed (skip_blanks p) b

-- the chain of tests of `strtoull`, which stops behind `f`
unfoldable pub strtoull_digit : ℕ → Option ℕ
strtoull_digit c =
    if is_digit c
    then some (c - b'0')
    else if leb b'a' c && leb c b'f'
    then some (c - b'a' + 10)
    else if leb b'A' c && leb c b'F'
    then some (c - b'A' + 10)
    else none

abbrev pub u64_mod : ℕ
u64_mod = 2 ^ 64

strtoull_loop : ℕ → Bytes → ℕ → ℕ × Bytes
unfolding strtoull_digit
strtoull_loop b [] r = (r, [])
strtoull_loop b (c ∷ p) r = elim (strtoull_digit c) [
  | none ↦ (r, c ∷ p)
  | some v ↦
      let rest = strtoull_loop b p ((r * b + v) % u64_mod) in if leb b v then (r, c ∷ p) else rest
]

-- The value, and `*e`.
unfoldable pub strtoull : Bytes → ℕ → ℕ × Bytes
unfolding skip_blanks strtoull_loop
strtoull p b = strtoull_loop b (skip_blanks p) 0
