-- ===== src/Libc/Strings/Compare.antt =====
-- What `strlen`, `strcmp` and `strncmp` compute, on the C strings that their arguments hold.
use x3d_toggle_main.Prelude.{
  ℕ, zero, suc, ◌+◌, ◌≡◌, ◌↔◌, [], ◌∷◌, some, pos, Bytes, cstr, length, take, arith,
}
use x3d_toggle_main.Libc.Strings.{strlen_loop, strlen, strcmp_loop, strcmp, strncmp_loop, strncmp}

strlen_loop-cstr : (s : Bytes) (i : ℕ) → strlen_loop s i ≡ i + length (cstr s)
unfolding strlen_loop cstr
strlen_loop-cstr [] i = omega arith
strlen_loop-cstr (c ∷ s) i = ground (arith, strlen_loop-cstr s (i + 1))

pub strlen-cstr : (s : Bytes) → strlen (some s) ≡ length (cstr s)
unfolding strlen
strlen-cstr s = omega (arith, strlen_loop-cstr s 0)

strcmp_loop-zero : (s t : Bytes) → (strcmp_loop s t ≡ pos 0) ↔ (cstr s ≡ cstr t)
unfolding strcmp_loop cstr
strcmp_loop-zero [] [] = ground arith
strcmp_loop-zero [] (d ∷ t) = ground arith
strcmp_loop-zero (c ∷ s) [] = ground arith
strcmp_loop-zero (c ∷ s) (d ∷ t) = ground (arith, strcmp_loop-zero s t)

-- `strcmp` returns 0 exactly when the two C strings are equal.
pub strcmp-zero : (s t : Bytes) → (strcmp (some s) (some t) ≡ pos 0) ↔ (cstr s ≡ cstr t)
unfolding strcmp
strcmp-zero s t = strcmp_loop-zero s t

strncmp_loop-zero :
    (n : ℕ) (s t : Bytes) → (strncmp_loop n s t ≡ pos 0) ↔ (take n (cstr s) ≡ take n (cstr t))
unfolding strncmp_loop cstr
strncmp_loop-zero zero s t = ground arith
strncmp_loop-zero (suc n) [] [] = ground arith
strncmp_loop-zero (suc n) [] (d ∷ t) = ground arith
strncmp_loop-zero (suc n) (c ∷ s) [] = ground arith
strncmp_loop-zero (suc n) (c ∷ s) (d ∷ t) = ground (arith, strncmp_loop-zero n s t)

-- `strncmp` returns 0 exactly when the two C strings agree in their first `n` bytes.
pub strncmp-zero :
    (n : ℕ) (s t : Bytes)
    → (strncmp (some s) (some t) n ≡ pos 0) ↔ (take n (cstr s) ≡ take n (cstr t))
unfolding strncmp
strncmp-zero zero s t = ground arith
strncmp-zero (suc n) s t = strncmp_loop-zero (suc n) s t
