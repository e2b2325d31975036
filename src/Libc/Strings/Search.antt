-- ===== src/Libc/Strings/Search.antt =====
-- What `strchr`, `strstr` and `strcspn` find.
use x3d_toggle_main.Prelude.{
  ℕ, suc, ◌-◌, ◌%◌, ◌<◌, ◌≤◌, take, drop, ◌≡◌, ◌≢◌, ◌↔◌, ap, inl, inr, not, ◌&&◌, none, some, [],
  ◌∷◌, ◌++◌, ◌==◌, Bytes, cstr, NoNul, Lacks, length, arith, Bool-cases,
}
use x3d_toggle_main.Libc.Strings.{strchr_loop, strchr}

-- `l` is split before the first `c`: what stands before, and what follows that `c`.
pub data SplitsAt (c : ℕ) : Bytes → Bytes → Bytes → Type 0 where
  at : {rest : Bytes} {l : Bytes} → l ≡ c ∷ rest → SplitsAt c l [] rest
  past :
      {x : ℕ} {l before rest : Bytes}
      → x ≢ c
      → SplitsAt c l before rest
      → SplitsAt c (x ∷ l) (x ∷ before) rest

strchr_loop-append :
    (pre rest : Bytes) (c : ℕ)
    → NoNul pre
    → Lacks c pre
    → strchr_loop (pre ++ c ∷ rest) c ≡ some (c ∷ rest)
unfolding strchr_loop
strchr_loop-append [] rest c n l = ground arith
strchr_loop-append (x ∷ pre) rest c (n0, n) (l0, l) =
    ground (arith, strchr_loop-append pre rest c n l)

-- `strchr` points to the first occurrence: the bytes passed over are neither NUL nor `c`.
pub strchr-append :
    (pre rest : Bytes) (c : ℕ)
    → c < 256
    → NoNul pre
    → Lacks c pre
    → strchr (some (pre ++ c ∷ rest)) c ≡ some (c ∷ rest)
unfolding strchr
strchr-append pre rest c h n l =
    let e : c % 256 ≡ c = omega arith in rw e (strchr_loop-append pre rest c n l)

strchr_loop-none : (s : Bytes) (c : ℕ) → c ≢ 0 → (strchr_loop s c ≡ none) ↔ Lacks c (cstr s)
unfolding strchr_loop cstr
strchr_loop-none [] c h = ground arith
strchr_loop-none (x ∷ s) c h = ground (arith, strchr_loop-none s c h)

-- For a byte other than NUL `strchr` returns NULL exactly when the C string lacks the byte.
pub strchr-none :
    (s : Bytes) (c : ℕ) → c ≢ 0 → c < 256 → (strchr (some s) c ≡ none) ↔ Lacks c (cstr s)
unfolding strchr
strchr-none s c h lt = let e : c % 256 ≡ c = omega arith in rw e (strchr_loop-none s c h)

length-strchr_loop : (s p : Bytes) (c : ℕ) → c ≢ 0 → strchr_loop s c ≡ some p → length p ≤ length s
unfolding strchr_loop
length-strchr_loop [] p c h e = ground arith
length-strchr_loop (x ∷ s) p c h e = ground (arith, length-strchr_loop s p c h)

strchr_loop-split :
    (s p : Bytes) (c : ℕ)
    → c ≢ 0
    → strchr_loop s c ≡ some p
    → s ≡ take (length s - length p) s ++ (c ∷ drop 1 p)
unfolding strchr_loop
strchr_loop-split [] p c h e = ground arith
strchr_loop-split (x ∷ s) p c h e = elim (Bool-cases (not (x == 0) && not (x == c))) [
  | inl on ↦
      let e' : strchr_loop s c ≡ some p = ground (arith, on) in
      let shorter = length-strchr_loop s p c h e' in
      let n : suc (length s) - length p ≡ suc (length s - length p) = omega (arith, shorter) in
      rw n (ap (◌∷◌ x) (strchr_loop-split s p c h e'))
  | inr stop ↦
      let ep : p ≡ x ∷ s = ground (arith, stop) in
      let ex : x ≡ c = ground (arith, stop) in
      let n : suc (length s) - suc (length s) ≡ 0 = omega arith in rw (ep, n, ex)
]

-- The text in front of what `strchr` points to, and the byte that it points to.
pub strchr-split :
    (s p : Bytes) (c : ℕ)
    → c ≢ 0
    → c < 256
    → strchr (some s) c ≡ some p
    → s ≡ take (length s - length p) s ++ (c ∷ drop 1 p)
unfolding strchr
strchr-split s p c h lt e =
    let m : c % 256 ≡ c = omega arith in strchr_loop-split s p c h (rw m at e)
