-- ===== src/Libc/Memory/Copy.antt =====
-- Where the bytes lie after `memcpy`, `memmove` and `memset`.
use x3d_toggle_main.Prelude.{
  ℕ, zero, suc, ◌+◌, ◌-◌, ◌%◌, ◌≤◌, ◌<◌, ◌≡◌, ◌⊎◌, inl, inr, refl, ◌∙◌, Bool, true, false, ◌&&◌,
  leb, ltb, if◌then◌else◌, pos, arith, Bool-cases, ◌↔◌,
}
use x3d_toggle_main.Libc.Memory.{
  Memory, update, memcpy, memset, memcmp, memmove_up, memmove_down, memmove,
}

-- Address `a` lies among the `n` addresses from `d`.
abbrev pub within : ℕ → ℕ → ℕ → Bool
within d n a = leb d a && ltb a (d + n)

-- `m'` is `m` with the `n` bytes that stood at `s` moved to `d`, and nothing else changed.
abbrev pub Copied : Memory → Memory → ℕ → ℕ → ℕ → Type 0
Copied m m' d s n = (a : ℕ) → m' a ≡ (if within d n a then m (s + (a - d)) else m a)

memmove_up-Copied :
    (n : ℕ) (m : Memory) (d s : ℕ) → (d ≤ s) ⊎ (s + n ≤ d) → Copied m (memmove_up m d s n) d s n
unfolding memmove_up
memmove_up-Copied zero m d s h a = ground arith
memmove_up-Copied (suc n) m d s h a =
    memmove_up-Copied n (update m d (m s)) (d + 1) (s + 1) (omega arith) a ∙ ground arith

memmove_down-Copied :
    (n : ℕ) (m : Memory) (d s : ℕ)
    → (s ≤ d) ⊎ (d + n ≤ s)
    → Copied m (memmove_down m (d + n) (s + n) n) d s n
unfolding memmove_down
memmove_down-Copied zero m d s h a = ground arith
memmove_down-Copied (suc n) m d s h a =
    ground (arith, memmove_down-Copied n (update m (d + n) (m (s + n))) d s (omega arith) a)

-- `memmove` moves `n` bytes and changes nothing else, however the two regions overlap.
pub memmove-Copied : (m : Memory) (d s n : ℕ) → Copied m (memmove m d s n) d s n
unfolding memmove
memmove-Copied m d s n = elim (Bool-cases (ltb d s)) [
  | inl up ↦ rw up (memmove_up-Copied n m d s (inl (ltb-le d s up)))
  | inr down ↦ rw down (memmove_down-Copied n m d s (inl (not_ltb-le d s down)))
]
  where
    ltb-le : (x y : ℕ) → ltb x y ≡ true → x ≤ y
    ltb-le x y h = ground arith

    not_ltb-le : (x y : ℕ) → ltb x y ≡ false → y ≤ x
    not_ltb-le x y h = ground arith

-- `memcpy` does so where the destination does not start inside the source region.
pub memcpy-Copied :
    (n : ℕ) (m : Memory) (d s : ℕ) → (d ≤ s) ⊎ (s + n ≤ d) → Copied m (memcpy m d s n) d s n
unfolding memcpy
memcpy-Copied zero m d s h a = ground arith
memcpy-Copied (suc n) m d s h a =
    memcpy-Copied n (update m d (m s)) (d + 1) (s + 1) (omega arith) a ∙ ground arith

pub memset-Filled :
    (n : ℕ) (m : Memory) (s c a : ℕ) → memset m s c n a ≡ (if within s n a then c % 256 else m a)
unfolding memset
memset-Filled zero m s c a = ground arith
memset-Filled (suc n) m s c a = memset-Filled n (update m s (c % 256)) (s + 1) c a ∙ ground arith

memcmp_sound :
    (n : ℕ) (m : Memory) (a b i : ℕ) → i < n → memcmp m a b n ≡ pos 0 → m (a + i) ≡ m (b + i)
unfolding memcmp
memcmp_sound zero m a b i h e = elim h [ ]
memcmp_sound (suc n) m a b zero h e = ground arith
memcmp_sound (suc n) m a b (suc i) h e = ground (arith, memcmp_sound n m (a + 1) (b + 1) i)

memcmp_complete :
    (n : ℕ) (m : Memory) (a b : ℕ)
    → ((i : ℕ) → i < n → m (a + i) ≡ m (b + i))
    → memcmp m a b n ≡ pos 0
unfolding memcmp
memcmp_complete zero m a b h = refl
memcmp_complete (suc n) m a b h =
    let later = memcmp_complete n m (a + 1) (b + 1) (λ i hi. ground (arith, h (suc i))) in
    ground (arith, h 0, later)

-- `memcmp` returns 0 exactly when the two regions hold the same bytes.
pub memcmp-zero :
    (n : ℕ) (m : Memory) (a b : ℕ)
    → (memcmp m a b n ≡ pos 0) ↔ ((i : ℕ) → i < n → m (a + i) ≡ m (b + i))
memcmp-zero n m a b = (λ e i h. memcmp_sound n m a b i h e, memcmp_complete n m a b)
