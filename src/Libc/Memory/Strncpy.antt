-- ===== src/Libc/Memory/Strncpy.antt =====
-- What `strncpy` writes. Its second loop runs once too often: when the source ends within the first
-- `n` bytes, `n + 1` bytes are written.
use x3d_toggle_main.Prelude.{
  ℕ, zero, suc, ◌+◌, ◌-◌, ◌≤◌, ◌<◌, ◌≡◌, ◌≢◌, ◌⊎◌, ◌∙◌, if◌then◌else◌, arith,
}
use x3d_toggle_main.Libc.Memory.{Memory, update, zero_fill, strncpy_loop, strncpy}
use x3d_toggle_main.Libc.Memory.Copy.{within}

zero_fill_lem :
    (n : ℕ) (m : Memory) (d a : ℕ) → zero_fill m d n a ≡ (if within d n a then 0 else m a)
unfolding zero_fill
zero_fill_lem zero m d a = ground arith
zero_fill_lem (suc n) m d a = zero_fill_lem n (update m d 0) (d + 1) a ∙ ground arith

-- The source string at `s` has length `k`.
pub record HasLength (m : Memory) (s k : ℕ) : Type 0 where
  pub ends : m (s + k) ≡ 0
  pub before : (i : ℕ) → i < k → m (s + i) ≢ 0

-- A write apart from the string, to `d`, leaves what follows its first byte a string.
pub HasLength-rest :
    (m : Memory) (d s k : ℕ)
    → HasLength m s (suc k)
    → (d < s + 1) ⊎ (s + 1 + k < d)
    → HasLength (update m d (m s)) (s + 1) k
HasLength-rest m d s k l apart = record {
  ends = let stop = l.ends in ground arith;
  before = λ i hi. ground (arith, l.before (suc i));
}

strncpy_loop_long :
    (n : ℕ) (m : Memory) (d s : ℕ)
    → (d + n ≤ s) ⊎ (s + n ≤ d)
    → ((i : ℕ) → i < n → m (s + i) ≢ 0)
    → (a : ℕ) → strncpy_loop m d s n a ≡ (if within d n a then m (s + (a - d)) else m a)
unfolding strncpy_loop
strncpy_loop_long zero m d s h nz a = ground arith
strncpy_loop_long (suc n) m d s h nz a =
    let m' = update m d (m s) in
    let nz' : (i : ℕ) → i < n → m' (s + 1 + i) ≢ 0 = λ i hi. ground (arith, nz (suc i)) in
    ground (arith, nz 0, strncpy_loop_long n m' (d + 1) (s + 1) (omega arith) nz' a)

-- Where the source has at least `n` bytes: exactly `n` bytes are written, and no NUL.
pub strncpy-long :
    (n : ℕ) (m : Memory) (d s : ℕ)
    → (d + n ≤ s) ⊎ (s + n ≤ d)
    → ((i : ℕ) → i < n → m (s + i) ≢ 0)
    → (a : ℕ) → strncpy m d s n a ≡ (if within d n a then m (s + (a - d)) else m a)
unfolding strncpy
strncpy-long = strncpy_loop_long

-- Where the source has fewer than `n` bytes and the regions are apart: the string is copied, and
-- NUL fills the rest of the `n` bytes and one byte more, at `d + n`.
strncpy_pads_past :
    (k n : ℕ) (m : Memory) (d s : ℕ)
    → HasLength m s k
    → k < n
    → (d + n < s) ⊎ (s + k < d)
    → (a : ℕ)
    → strncpy m d s n a
      ≡ (if within d k a then m (s + (a - d)) else if within (d + k) (n - k + 1) a then 0 else m a)
unfolding strncpy strncpy_loop
strncpy_pads_past zero zero m d s l h apart a = absurd (omega arith)
strncpy_pads_past zero (suc n) m d s l h apart a =
    let stop = l.ends in ground (arith, stop, zero_fill_lem (suc n) (update m d (m s)) (d + 1) a)
strncpy_pads_past (suc k) zero m d s l h apart a = absurd (omega arith)
strncpy_pads_past (suc k) (suc n) m d s l h apart a =
    let m' = update m d (m s) in
    let l' = HasLength-rest m d s k l (omega arith) in
    ground
      (arith, l.before 0, strncpy_pads_past k n m' (d + 1) (s + 1) l' (omega arith) (omega arith) a)
