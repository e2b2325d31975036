-- ===== src/Irq/Apart.antt =====
-- The files of two interrupts are not the same, and the number of a core is one line of text.
use mathlib.Core.List.{reverse, reverse-append, append_cancel_left, append_cancel_right}
use x3d_toggle_main.Prelude.{
  ℕ, suc, ◌≡◌, ◌≢◌, refl, ◌∙◌, sym, inl, inr, true, List, [], ◌∷◌, ◌==◌, ℤ, pos, negsuc, Bytes,
  codes, take-all, Bool-cases, All, arith,
}
use x3d_toggle_main.Libc.Numbers.{is_digit}
use x3d_toggle_main.Libc.Numbers.Atoi.{dec_value}
use x3d_toggle_main.Libc.Bounded.{itoa, stored_digits, printf_d}
use x3d_toggle_main.Libc.Bounded.Decimal.{IsShort, printf_d_inj, length-itoa, stored_digits_lem}
use x3d_toggle_main.Irq.Masks.{mask_path, orig_path, irq_state_dir}
use x3d_toggle_main.Irq.Nodes.{IsLine}

-- The files of two interrupts are not the same.
abbrev pub IsApart : ℤ → ℤ → Type 0
IsApart irq other = (mask_path irq ≢ mask_path other) × (orig_path irq ≢ orig_path other)

-- Any two interrupts of the list have files of their own.
abbrev pub AllApart : List ℤ → Type 0
AllApart [] = Unit
AllApart (irq ∷ irqs) = All (IsApart irq) irqs × AllApart irqs

-- Numbers of an `int`, the least one left out, of which no two are the same.
abbrev pub AllDifferent : List ℤ → Type 0
AllDifferent [] = Unit
AllDifferent (irq ∷ irqs) =
    IsShort irq × All (λ other. IsShort other × (irq ≢ other)) irqs × AllDifferent irqs

mask_path_apart : (i j : ℤ) → IsShort i → IsShort j → i ≢ j → mask_path i ≢ mask_path j
unfolding mask_path
mask_path_apart i j hi hj ne e = ne (
    printf_d_inj 64 i j (omega arith) hi hj
      (append_cancel_right _ _ _ (append_cancel_left (codes "/proc/irq/") _ _ e)))

orig_path_apart : (i j : ℤ) → IsShort i → IsShort j → i ≢ j → orig_path i ≢ orig_path j
unfolding orig_path
orig_path_apart i j hi hj ne e = ne (
    printf_d_inj 64 i j (omega arith) hi hj
      (append_cancel_left (codes "/irq_orig_") _ _ (append_cancel_left irq_state_dir _ _ e)))

pub different-AllApart : (irqs : List ℤ) → AllDifferent irqs → AllApart irqs
different-AllApart [] h = tt
different-AllApart (irq ∷ irqs) (short, others, h) =
    (all_apart irqs others, different-AllApart irqs h)
  where
    all_apart : (l : List ℤ) → All (λ other. IsShort other × (irq ≢ other)) l → All (IsApart irq) l
    all_apart [] g = tt
    all_apart (other ∷ l) ((short_other, ne), g) = (
      (
        mask_path_apart irq other short short_other ne,
        orig_path_apart irq other short short_other ne,
      ),
      all_apart l g,
    )

-- a byte that may stand in a line
abbrev InLine : ℕ → Type 0
InLine c = (c ≢ 0) × (c ≢ b'\n') × (c ≢ b'\r')

digits-InLine : (p : Bytes) → All (λ c. is_digit c ≡ true) p → All InLine p
digits-InLine [] h = tt
digits-InLine (c ∷ p) (hc, h) =
    ((ground (arith, hc), ground (arith, hc), ground (arith, hc)), digits-InLine p h)

digits-ne-nil : (n : ℕ) → n ≢ 0 → reverse (stored_digits n) ≢ []
digits-ne-nil n h e =
    let spelt = (stored_digits_lem n).1 in
    let zero_value : dec_value (reverse (stored_digits n)) ≡ 0 = rw e refl in
    h (sym spelt ∙ zero_value)

itoa-InLine : (z : ℤ) → (itoa z ≢ []) × All InLine (itoa z)
unfolding itoa
itoa-InLine (pos n) = elim (Bool-cases (n == 0)) [
  | inl e ↦ rw e ((λ p. cc), ground arith)
  | inr e ↦ rw e (
    digits-ne-nil n (ground (arith, e)),
    digits-InLine (reverse (stored_digits n)) (stored_digits_lem n).0,
  )
]
itoa-InLine (negsuc n) = rw (reverse-append (stored_digits (suc n)) (b'-' ∷ [])) (
  (λ p. cc),
  (ground arith, digits-InLine (reverse (stored_digits (suc n))) (stored_digits_lem (suc n)).0),
)

-- What "%d" writes into a buffer of 16 bytes is a line.
pub printf_d-IsLine : (z : ℤ) → IsShort z → IsLine (printf_d 16 z)
unfolding printf_d
printf_d-IsLine z h =
    let len = length-itoa z h in
    let text = itoa-InLine z in
    rw (take-all 15 (itoa z) (omega (arith, len))) (text.0, omega (arith, len), text.1)
