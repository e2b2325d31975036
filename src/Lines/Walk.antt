-- ===== src/Lines/Walk.antt =====
-- The pointer loop over the lines of a buffer visits exactly the lines of the text.
use x3d_toggle_main.Prelude.{
  ℕ, zero, suc, ◌-◌, ◌<◌, ◌≡◌, ◌≢◌, refl, sym, ap, ◌∙◌, inl, inr, true, false, none, some, List, [],
  ◌∷◌, ◌++◌, ◌==◌, Bytes, cstr, deref, take, drop, length, length-append, Lacks, NoNul, arith,
  Bool-cases,
}
use mathlib.Core.Path.{subst}
use x3d_toggle_main.Libc.Strings.{strchr}
use x3d_toggle_main.Libc.Strings.Search.{strchr-append, strchr-none}
use x3d_toggle_main.Libc.Strings.Equal.{take-minus-append}
use x3d_toggle_main.Lines.{split_lines}

-- `while (line && *line)`, each round handing the line to the body; fuel stands for the rounds.
pub walk : ℕ → Bytes → List Bytes
walk zero line = []
walk (suc fuel) line = elim (deref line == 0) [
  | true ↦ []
  | false ↦ elim (strchr (some line) b'\n') [
    | none ↦ cstr line ∷ []
    | some next ↦ take (length line - length next) line ∷ walk fuel (drop 1 next)
  ]
]

-- A newline in reach, or none: the two ways in which a round goes on.
data Cut (s : Bytes) : Type 0 where
  last : Lacks b'\n' (cstr s) → Cut s
  more : (pre rest : Bytes) → s ≡ pre ++ (b'\n' ∷ rest) → NoNul pre → Lacks b'\n' pre → Cut s

cut-cons : (c : ℕ) (s : Bytes) → c ≢ 0 → c ≢ b'\n' → Cut s → Cut (c ∷ s)
unfolding cstr
cut-cons c s h0 hn (last l) = last (ground arith)
cut-cons c s h0 hn (more pre rest e n l) = more (c ∷ pre) rest (ap (◌∷◌ c) e) (h0, n) (hn, l)

cut : (s : Bytes) → Cut s
unfolding cstr
cut [] = last tt
cut (c ∷ s) = elim (Bool-cases (c == 0)) [
  | inl nul ↦ last (rw nul tt)
  | inr go ↦ elim (Bool-cases (c == b'\n')) [
    | inl newline ↦ more [] s (ground arith) tt tt
    | inr other ↦ cut-cons c s (ground arith) (ground arith) (cut s)
  ]
]

-- One line without a newline.
split_lines-last : (l : Bytes) → Lacks b'\n' l → l ≢ [] → split_lines l ≡ l ∷ []
unfolding split_lines
split_lines-last [] h ne = absurd (ne refl)
split_lines-last (c ∷ []) (hc, h) ne = ground arith
split_lines-last (c ∷ d ∷ l) (hc, h) ne =
    let ne' : (d ∷ l) ≢ [] = λ e. cc in ground (arith, split_lines-last (d ∷ l) h ne')

pub split_lines-more :
    (l rest : Bytes) → Lacks b'\n' l → split_lines (l ++ (b'\n' ∷ rest)) ≡ l ∷ split_lines rest
unfolding split_lines
split_lines-more [] rest h = refl
split_lines-more (c ∷ l) rest (hc, h) = ground (arith, split_lines-more l rest h)

cstr-append : (pre s : Bytes) → NoNul pre → cstr (pre ++ s) ≡ pre ++ cstr s
unfolding cstr
cstr-append [] s h = refl
cstr-append (c ∷ pre) s (hc, h) = ground (arith, cstr-append pre s h)

cstr_at_nul : (s : Bytes) → (deref s == 0) ≡ true → cstr s ≡ []
unfolding cstr
cstr_at_nul [] e = refl
cstr_at_nul (c ∷ s) e = ground arith

cstr-ne-nil : (s : Bytes) → (deref s == 0) ≡ false → cstr s ≢ []
unfolding cstr
cstr-ne-nil [] e = cc
cstr-ne-nil (c ∷ s) e = ground arith

split_lines-nil : split_lines [] ≡ []
unfolding split_lines
split_lines-nil = refl

cstr-newline : (rest : Bytes) → cstr (b'\n' ∷ rest) ≡ b'\n' ∷ cstr rest
unfolding cstr
cstr-newline rest = refl

-- The three ways in which a round of the loop ends.
walk_stop : (fuel : ℕ) (s : Bytes) → (deref s == 0) ≡ true → walk (suc fuel) s ≡ []
unfolding walk
walk_stop fuel s e = ground (arith, e)

walk_last :
    (fuel : ℕ) (s : Bytes)
    → (deref s == 0) ≡ false
    → strchr (some s) b'\n' ≡ none
    → walk (suc fuel) s ≡ cstr s ∷ []
unfolding walk
walk_last fuel s go e = ground (arith, go, e)

walk_next :
    (fuel : ℕ) (s next : Bytes)
    → (deref s == 0) ≡ false
    → strchr (some s) b'\n' ≡ some next
    → walk (suc fuel) s ≡ take (length s - length next) s ∷ walk fuel (drop 1 next)
unfolding walk
walk_next fuel s next go e = ground (arith, go, e)

walk_more :
    (fuel : ℕ) (pre rest : Bytes)
    → NoNul pre
    → Lacks b'\n' pre
    → (deref (pre ++ (b'\n' ∷ rest)) == 0) ≡ false
    → walk fuel rest ≡ split_lines (cstr rest)
    → walk (suc fuel) (pre ++ (b'\n' ∷ rest)) ≡ split_lines (cstr (pre ++ (b'\n' ∷ rest)))
walk_more fuel pre rest n l go ih =
    let found = strchr-append pre rest b'\n' (omega arith) n l in
    walk_next fuel (pre ++ (b'\n' ∷ rest)) (b'\n' ∷ rest) go found
    ∙ rw (
      cstr-append pre (b'\n' ∷ rest) n,
      cstr-newline rest,
      split_lines-more pre (cstr rest) l,
      take-minus-append pre (b'\n' ∷ rest),
      ih,
    )

-- With more fuel than bytes, the loop visits the lines of the C string in the buffer.
walk-split_lines : (fuel : ℕ) (s : Bytes) → length s < fuel → walk fuel s ≡ split_lines (cstr s)
walk-split_lines zero s h = elim h [ ]
walk-split_lines (suc fuel) s h = elim (Bool-cases (deref s == 0)) [
  | inl nul ↦ walk_stop fuel s nul ∙ rw (cstr_at_nul s nul) (sym split_lines-nil)
  | inr go ↦ elim (cut s) [
    | last l ↦
        walk_last fuel s go ((strchr-none s b'\n' (omega arith) (omega arith)).1 l)
        ∙ sym (split_lines-last (cstr s) l (cstr-ne-nil s go))
    | more pre rest e n l ↦
        let shorter : length rest < fuel =
          omega (arith, ap length e, length-append pre (b'\n' ∷ rest)) in
        subst (λ t. walk (suc fuel) t ≡ split_lines (cstr t)) (sym e)
          (walk_more fuel pre rest n l (rw e at go) (walk-split_lines fuel rest shorter))
  ]
]
