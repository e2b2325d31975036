-- ===== src/Libc/Memory.antt =====
-- src/libc.c: the functions that write through pointers, on a memory that gives each address its
-- byte. Each returns the memory that it leaves; the returned pointer is always the first argument.
pub mod Append
pub mod Copy
pub mod Strncpy
use x3d_toggle_main.Prelude.{
  ℕ, zero, suc, ◌+◌, ◌-◌, ◌%◌, Bool, ltb, ◌==◌, if◌then◌else◌, ℤ, pos, sub_ℕ,
}

abbrev pub Memory : Type 0
Memory = ℕ → ℕ

abbrev pub update : Memory → ℕ → ℕ → Memory
update m a v b = if b == a then v else m b

-- `while (n--) *d1++ = *s1++`
unfoldable pub memcpy : Memory → ℕ → ℕ → ℕ → Memory
memcpy m d s zero = m
memcpy m d s (suc n) = memcpy (update m d (m s)) (d + 1) (s + 1) n

unfoldable pub memset : Memory → ℕ → ℕ → ℕ → Memory
memset m s c zero = m
memset m s c (suc n) = memset (update m s (c % 256)) (s + 1) c n

unfoldable pub memcmp : Memory → ℕ → ℕ → ℕ → ℤ
memcmp m a b zero = pos 0
memcmp m a b (suc n) = if m a == m b then memcmp m (a + 1) (b + 1) n else sub_ℕ (m a) (m b)

-- `while (n--) *d++ = *s++`, the branch of `memmove` for `d < s`
memmove_up : Memory → ℕ → ℕ → ℕ → Memory
memmove_up m d s zero = m
memmove_up m d s (suc n) = memmove_up (update m d (m s)) (d + 1) (s + 1) n

-- `while (n--) *--d = *--s`, from the ends of the two regions
memmove_down : Memory → ℕ → ℕ → ℕ → Memory
memmove_down m d s zero = m
memmove_down m d s (suc n) = memmove_down (update m (d - 1) (m (s - 1))) (d - 1) (s - 1) n

unfoldable pub memmove : Memory → ℕ → ℕ → ℕ → Memory
unfolding memmove_up memmove_down
memmove m d s n = if ltb d s then memmove_up m d s n else memmove_down m (d + n) (s + n) n

-- `while (n--) *d++ = 0`
zero_fill : Memory → ℕ → ℕ → Memory
zero_fill m d zero = m
zero_fill m d (suc n) = zero_fill (update m d 0) (d + 1) n

-- `while (n && (*d++ = *s++)) n--`, then `zero_fill` from where that loop leaves `d` and `n`
strncpy_loop : Memory → ℕ → ℕ → ℕ → Memory
unfolding zero_fill
strncpy_loop m d s zero = m
strncpy_loop m d s (suc n) =
    let m' = update m d (m s) in
    let rest = strncpy_loop m' (d + 1) (s + 1) n in
    if m s == 0 then zero_fill m' (d + 1) (suc n) else rest

-- `d` and `s` are not NULL
unfoldable pub strncpy : Memory → ℕ → ℕ → ℕ → Memory
unfolding strncpy_loop
strncpy m d s n = strncpy_loop m d s n
