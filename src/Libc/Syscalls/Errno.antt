-- ===== src/Libc/Syscalls/Errno.antt =====
-- What `errno` and the result of a call say of the kernel's answer.
use x3d_toggle_main.Prelude.{
  ℕ, suc, ◌<◌, ◌≤◌, ◌^◌, ◌≡◌, refl, List, ℤ, pos, negsuc, arith, ltb, true,
}
use x3d_toggle_main.Libc.Syscalls.{Process, int_of, is_error, negated, returned, call_int}

-- The kernel's answers: an error number from 1 to 4095, negated, or a number below 2 ^ 31.
abbrev pub IsAnswer : ℤ → Type 0
IsAnswer (pos n) = n < 2 ^ 31
IsAnswer (negsuc n) = n < 4095

abbrev pub IsErrno : ℤ → Type 0
IsErrno (pos n) = n ≤ 4095
IsErrno (negsuc n) = ⊥

int_of-pos : (n : ℕ) → n < 2 ^ 31 → int_of (pos n) ≡ pos n
unfolding int_of
int_of-pos n h = ground arith

module _ {S : Type 0} (syscall : ℕ → List ℤ → S → S × ℤ) where
  abbrev pub Tells : ℤ → Process S × ℤ → Type 0
  Tells ret r =
      IsErrno r.0.errno
      × ((r.1 ≡ negsuc 0) → (n : ℕ) × (ret ≡ negsuc n) × (r.0.errno ≡ pos (suc n)))
      × ((n : ℕ) → ret ≡ negsuc n → (r.1 ≡ negsuc 0) × (r.0.errno ≡ pos (suc n)))

  returned-Tells :
      (before ret : ℤ) (s : S)
      → IsAnswer ret
      → IsErrno before
      → Tells ret (returned syscall int_of before (s, ret))
  unfolding returned is_error negated
  returned-Tells before (pos n) s h e =
      (e, λ eq. absurd (cc (eq, int_of-pos n h)), λ m eq. absurd (cc eq))
  returned-Tells before (negsuc n) s h e =
      let err : ltb n 4095 ≡ true = ground arith in
      rw err (omega arith, λ eq. (n, refl, refl), λ m eq. (refl, cc eq))

  -- Where the kernel answers with an error number from 1 to 4095, negated, or with a number below
  -- 2 ^ 31: behind a call that returns an int, errno is a number up to 4095 if it was before, the
  -- result is -1 exactly when the kernel answered with an error, and errno then is its number.
  pub call_int-Tells :
      (number : ℕ) (args : List ℤ) (p : Process S)
      → IsAnswer (syscall number args p.state).1
      → IsErrno p.errno
      → Tells (syscall number args p.state).1 (call_int syscall number args p)
  unfolding call_int
  call_int-Tells number args p h e =
      returned-Tells p.errno (syscall number args p.state).1 (syscall number args p.state).0 h e
