-- ===== src/Libc/Numbers/Digits.antt =====
-- The numbers that digits spell, apart from the code that reads them.
use x3d_toggle_main.Prelude.{
  ℕ, ◌+◌, ◌*◌, ◌≤◌, ◌<◌, ◌≡◌, refl, Option, none, some, List, [], ◌∷◌, ltb, if◌then◌else◌, Bytes,
  arith, length, Option-cases, inl, inr,
}

-- The value of digits in base `b` that follow a number `r`.
abbrev pub value_from : ℕ → ℕ → List ℕ → ℕ
value_from b r [] = r
value_from b r (v ∷ vs) = value_from b (r * b + v) vs

pub le-value_from : (b r : ℕ) (vs : List ℕ) → 0 < b → r ≤ value_from b r vs
le-value_from b r [] h = omega arith
le-value_from b r (v ∷ vs) h =
    let step : r ≤ r * b + v = grind arith in omega (arith, le-value_from b (r * b + v) vs h, step)

-- The longest run of digits of base `b` at the start of a text: their values, and what follows.
module _ (digit : ℕ → Option ℕ) (b : ℕ) where
  abbrev pub digit_run : Bytes → List ℕ
  digit_run [] = []
  digit_run (c ∷ p) = elim (digit c) [
    | none ↦ []
    | some v ↦ if ltb v b then v ∷ digit_run p else []
  ]

  abbrev pub after_run : Bytes → Bytes
  after_run [] = []
  after_run (c ∷ p) = elim (digit c) [
    | none ↦ c ∷ p
    | some v ↦ if ltb v b then after_run p else c ∷ p
  ]

  pub length_run : (p : Bytes) → length (digit_run p) + length (after_run p) ≡ length p
  length_run [] = refl
  length_run (c ∷ p) = elim (Option-cases (digit c)) [
    | inl e ↦ ground (arith, e)
    | inr (v, e) ↦ ground (arith, e, length_run p)
  ]

  -- A run that reads nothing spells nothing.
  pub value_run_empty :
      (p : Bytes) → length (after_run p) ≡ length p → value_from b 0 (digit_run p) ≡ 0
  value_run_empty p h = value_empty (digit_run p) (omega (arith, length_run p))
    where
      value_empty : (vs : List ℕ) → length vs ≡ 0 → value_from b 0 vs ≡ 0
      value_empty [] e = refl
      value_empty (v ∷ vs) e = absurd (omega arith)
