-- ===== src/Libc/Strings/Span.antt =====
-- `strcspn`: the length of what precedes the first byte of the set, or the end of the string.
use x3d_toggle_main.Prelude.{
  ℕ, ◌+◌, ◌≡◌, ◌≢◌, refl, ◌∙◌, ◌⊎◌, inl, inr, none, some, [], ◌∷◌, ◌++◌, Bytes, cstr, deref, length,
  All, arith,
}
use x3d_toggle_main.Libc.Strings.{strchr, strcspn_loop, strcspn}

module _ (reject : Bytes) where
  -- a byte that the span goes past
  abbrev pub Passes : ℕ → Type 0
  Passes c = (c ≢ 0) × (strchr (some reject) c ≡ none)

  -- what the span stops at
  abbrev pub Stops : Bytes → Type 0
  Stops rest = (deref rest ≡ 0) ⊎ ((p : Bytes) × (strchr (some reject) (deref rest) ≡ some p))

  strcspn_loop_lem :
      (s rest : Bytes) (n : ℕ)
      → All Passes s
      → Stops rest
      → strcspn_loop (s ++ rest) reject n ≡ n + length s
  unfolding strcspn_loop
  strcspn_loop_lem [] [] n h e = omega arith
  strcspn_loop_lem [] (c ∷ rest) n h (inl e) = ground (arith, e)
  strcspn_loop_lem [] (c ∷ rest) n h (inr (p, e)) = ground (arith, e)
  strcspn_loop_lem (c ∷ s) rest n ((hc, hp), h) e =
      ground (arith, hp, strcspn_loop_lem s rest (n + 1) h e)

  pub strcspn-append :
      (s rest : Bytes)
      → All Passes s
      → Stops rest
      → strcspn (some (s ++ rest)) (some reject) ≡ length s
  unfolding strcspn
  strcspn-append s rest h e = strcspn_loop_lem s rest 0 h e ∙ omega arith

pub cstr-append : (s rest : Bytes) → All (λ c. c ≢ 0) s → cstr (s ++ rest) ≡ s ++ cstr rest
unfolding cstr
cstr-append [] rest h = refl
cstr-append (c ∷ s) rest (hc, h) = ground (arith, cstr-append s rest h)
