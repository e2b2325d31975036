-- ===== src/Libc/Memory/Append.antt =====
-- src/libc.c: strcpy, strcat and strncat, whose loops run to the NUL of a string. The memory has no
-- end, so they run on fuel, and give `none` where it does not reach; a string's length is enough.
use x3d_toggle_main.Prelude.{
  ℕ, zero, suc, ◌+◌, ◌-◌, ◌<◌, ◌≡◌, ◌⊎◌, ◌==◌, Option, none, some, if◌then◌else◌, arith,
}
use x3d_toggle_main.Libc.Memory.{Memory, update}
use x3d_toggle_main.Libc.Memory.Copy.{within}
use x3d_toggle_main.Libc.Memory.Strncpy.{HasLength, HasLength-rest}

-- `while (*d) d++`: where `d` stands when it ends
unfoldable string_end : ℕ → Memory → ℕ → Option ℕ
string_end zero m d = none
string_end (suc fuel) m d =
    let rest = string_end fuel m (d + 1) in if m d == 0 then some d else rest

-- `while ((*d++ = *s++))`; `d` and `s` are not NULL
unfoldable strcpy : ℕ → Memory → ℕ → ℕ → Option Memory
strcpy zero m d s = none
strcpy (suc fuel) m d s =
    let m' = update m d (m s) in
    let rest = strcpy fuel m' (d + 1) (s + 1) in if m s == 0 then some m' else rest

unfoldable strcat : ℕ → Memory → ℕ → ℕ → Option Memory
strcat fuel m d s = elim (string_end fuel m d) [ none ↦ none | some e ↦ strcpy fuel m e s ]

-- `while (n-- && (*d++ = *s++))`, then `*d = 0` where `d` stands, behind a NUL that was copied
strncat_loop : Memory → ℕ → ℕ → ℕ → Memory
strncat_loop m d s zero = update m d 0
strncat_loop m d s (suc n) =
    let m' = update m d (m s) in
    let rest = strncat_loop m' (d + 1) (s + 1) n in if m s == 0 then update m' (d + 1) 0 else rest

unfoldable strncat : ℕ → Memory → ℕ → ℕ → ℕ → Option Memory
unfolding strncat_loop
strncat fuel m d s n = elim (string_end fuel m d) [
  | none ↦ none
  | some e ↦ some (strncat_loop m e s n)
]

-- the byte at an address of the memory that a function leaves
abbrev byte_at : Option Memory → ℕ → Option ℕ
byte_at none a = none
byte_at (some m) a = some (m a)

-- With more fuel than the string has bytes, its NUL is found.
string_end-HasLength :
    (fuel k : ℕ) (m : Memory) (d : ℕ)
    → HasLength m d k
    → k < fuel
    → string_end fuel m d ≡ some (d + k)
unfolding string_end
string_end-HasLength zero k m d l h = absurd (omega arith)
string_end-HasLength (suc fuel) zero m d l h = let stop = l.ends in ground arith
string_end-HasLength (suc fuel) (suc k) m d l h =
    let l' : HasLength m (d + 1) k = record {
      ends = let stop = l.ends in ground arith;
      before = λ i hi. ground (arith, l.before (suc i));
    } in
    ground (arith, l.before 0, string_end-HasLength fuel k m (d + 1) l' (omega arith))

-- strcpy to a place apart from the source writes the string and its NUL and nothing else.
strcpy-HasLength :
    (fuel k : ℕ) (m : Memory) (d s : ℕ)
    → HasLength m s k
    → k < fuel
    → (d + k < s) ⊎ (s + k < d)
    → (a : ℕ)
    → byte_at (strcpy fuel m d s) a ≡ some (if within d (k + 1) a then m (s + (a - d)) else m a)
unfolding strcpy
strcpy-HasLength zero k m d s l h apart a = absurd (omega arith)
strcpy-HasLength (suc fuel) zero m d s l h apart a = let stop = l.ends in ground arith
strcpy-HasLength (suc fuel) (suc k) m d s l h apart a =
    let m' = update m d (m s) in
    let l' = HasLength-rest m d s k l (omega arith) in
    ground (
      arith,
      l.before 0,
      strcpy-HasLength fuel k m' (d + 1) (s + 1) l' (omega arith) (omega arith) a,
    )

strncat_loop_short :
    (k n : ℕ) (m : Memory) (d s : ℕ)
    → HasLength m s k
    → k < n
    → (d + k < s) ⊎ (s + k < d)
    → (a : ℕ)
    → strncat_loop m d s n a
      ≡ (if within d k a then m (s + (a - d)) else if within (d + k) 2 a then 0 else m a)
unfolding strncat_loop
strncat_loop_short zero zero m d s l h apart a = absurd (omega arith)
strncat_loop_short zero (suc n) m d s l h apart a = let stop = l.ends in ground arith
strncat_loop_short (suc k) zero m d s l h apart a = absurd (omega arith)
strncat_loop_short (suc k) (suc n) m d s l h apart a =
    let m' = update m d (m s) in
    let l' = HasLength-rest m d s k l (omega arith) in
    ground (
      arith,
      l.before 0,
      strncat_loop_short k n m' (d + 1) (s + 1) l' (omega arith) (omega arith) a,
    )

-- Where the source has fewer than `n` bytes and is apart from the end of the first string: it is
-- copied there, and two bytes behind it are set to NUL.
strncat_pads_past :
    (fuel j k n : ℕ) (m : Memory) (d s : ℕ)
    → HasLength m d j
    → HasLength m s k
    → j < fuel
    → k < n
    → (d + j + k < s) ⊎ (s + k < d + j)
    → (a : ℕ)
    → byte_at (strncat fuel m d s n) a
      ≡ some (
          if within (d + j) k a
          then m (s + (a - (d + j)))
          else if within (d + j + k) 2 a
          then 0
          else m a)
unfolding strncat
strncat_pads_past fuel j k n m d s ld ls hj hk apart a =
    ground (
      arith,
      string_end-HasLength fuel j m d ld hj,
      strncat_loop_short k n m (d + j) s ls hk apart a,
    )

-- strcat to a string that the source is apart from writes the source and its NUL to its end.
strcat-HasLength :
    (fuel j k : ℕ) (m : Memory) (d s : ℕ)
    → HasLength m d j
    → HasLength m s k
    → j < fuel
    → k < fuel
    → (d + j + k < s) ⊎ (s + k < d + j)
    → (a : ℕ)
    → byte_at (strcat fuel m d s) a
      ≡ some (if within (d + j) (k + 1) a then m (s + (a - (d + j))) else m a)
unfolding strcat
strcat-HasLength fuel j k m d s ld ls hj hk apart a = ground (
  arith,
  string_end-HasLength fuel j m d ld hj,
  strcpy-HasLength fuel k m (d + j) s ls hk apart a,
)
