-- ===== src/Libc/Strings/Substring.antt =====
-- `strstr` finds the first occurrence of one C string in another.
use x3d_toggle_main.Prelude.{
  ℕ, ◌≤◌, ◌≡◌, ◌≢◌, refl, inl, inr, ◌&&◌, true, false, none, some, [], ◌∷◌, ◌++◌, ◌==◌, Bytes, cstr,
  cstr_self, NoNul, Lacks, deref, length, drop, arith, Bool-cases,
}
use x3d_toggle_main.Libc.Strings.Span.{cstr-append}
use x3d_toggle_main.Libc.Strings.{Ptr, strstr_match, strstr_loop, strstr}

strstr_match_sound :
    (h n : Bytes)
    → deref (strstr_match h n) ≡ 0
    → cstr h ≡ cstr n ++ drop (length (cstr n)) (cstr h)
unfolding strstr_match cstr
strstr_match_sound [] [] e = refl
strstr_match_sound [] (y ∷ n) e = ground arith
strstr_match_sound (x ∷ h) [] e = refl
strstr_match_sound (x ∷ h) (y ∷ n) e = ground (arith, strstr_match_sound h n)

strstr_match_complete : (h n rest : Bytes) → cstr h ≡ cstr n ++ rest → deref (strstr_match h n) ≡ 0
unfolding strstr_match cstr
strstr_match_complete [] [] rest e = refl
strstr_match_complete [] (y ∷ n) rest e = ground arith
strstr_match_complete (x ∷ h) [] rest e = refl
strstr_match_complete (x ∷ h) (y ∷ n) rest e = ground (arith, strstr_match_complete h n rest)

-- The outcome of a search: not there at all, or there at `p` and nowhere before.
abbrev pub FindsFirst : Bytes → Bytes → Ptr → Type 0
FindsFirst h n none = (a b : Bytes) → cstr h ≢ a ++ (cstr n ++ b)
FindsFirst h n (some p) =
    (a : Bytes) × (cstr h ≡ a ++ cstr p)
    × (cstr p ≡ cstr n ++ drop (length (cstr n)) (cstr p))
    × ((a' b : Bytes) → cstr h ≡ a' ++ (cstr n ++ b) → length a ≤ length a')

-- An occurrence behind a byte where the match fails lies behind that byte.
occurs_later :
    (x : ℕ) (h n a b : Bytes)
    → x ≢ 0
    → deref (strstr_match (x ∷ h) n) ≢ 0
    → cstr (x ∷ h) ≡ a ++ (cstr n ++ b)
    → (a' : Bytes) × (a ≡ x ∷ a') × (cstr h ≡ a' ++ (cstr n ++ b))
unfolding cstr
occurs_later x h n [] b hx hm e = absurd (hm (strstr_match_complete (x ∷ h) n b e))
occurs_later x h n (y ∷ a) b hx hm e = (a, ground arith, ground arith)

FindsFirst-cons :
    (x : ℕ) (h n : Bytes) (r : Ptr)
    → x ≢ 0
    → deref (strstr_match (x ∷ h) n) ≢ 0
    → FindsFirst h n r
    → FindsFirst (x ∷ h) n r
FindsFirst-cons x h n none hx hm f =
    λ a b e. let (a', _, e') = occurs_later x h n a b hx hm e in f a' b e'
FindsFirst-cons x h n (some p) hx hm (a, e, m, first) = (
  x ∷ a,
  unfold cstr in (ground arith),
  m,
  λ a' b e'.
      let (a'', ea, eh) = occurs_later x h n a' b hx hm e' in rw ea (omega (arith, first a'' b eh)),
)

FindsFirst-here : (h n : Bytes) → deref (strstr_match h n) ≡ 0 → FindsFirst h n (some h)
FindsFirst-here h n m = ([], refl, strstr_match_sound h n m, λ a' b e. omega arith)

-- In an empty text nothing but the empty text occurs.
FindsFirst-empty : (h n : Bytes) → cstr h ≡ [] → deref n ≢ 0 → FindsFirst h n none
unfolding cstr
FindsFirst-empty h [] eh hn [] b e = absurd (hn refl)
FindsFirst-empty h (y ∷ n) eh hn [] b e = ground arith
FindsFirst-empty h n eh hn (y ∷ a) b e = ground arith

empty_at_nul : (x : ℕ) (h : Bytes) → (x == 0) ≡ true → cstr (x ∷ h) ≡ []
unfolding cstr
empty_at_nul x h e = ground arith

hit_match :
    (x : ℕ) (h n : Bytes)
    → (x == deref n && deref (strstr_match (x ∷ h) n) == 0) ≡ true
    → deref (strstr_match (x ∷ h) n) ≡ 0
hit_match x h n e = ground arith

miss_match :
    (x : ℕ) (h n : Bytes)
    → deref n ≢ 0
    → (x == 0) ≡ false
    → (x == deref n && deref (strstr_match (x ∷ h) n) == 0) ≡ false
    → deref (strstr_match (x ∷ h) n) ≢ 0
unfolding strstr_match
miss_match x h [] hn e m = ground arith
miss_match x h (y ∷ n) hn e m = ground arith

strstr_loop-FindsFirst : (h n : Bytes) → deref n ≢ 0 → FindsFirst h n (strstr_loop h n)
unfolding strstr_loop
strstr_loop-FindsFirst [] n hn = FindsFirst-empty [] n (unfold cstr in refl) hn
strstr_loop-FindsFirst (x ∷ h) n hn = elim (Bool-cases (x == 0)) [
  | inl stop ↦ rw stop (FindsFirst-empty (x ∷ h) n (empty_at_nul x h stop) hn)
  | inr go ↦ rw go (elim (Bool-cases (x == deref n && deref (strstr_match (x ∷ h) n) == 0)) [
    | inl hit ↦ rw hit (FindsFirst-here (x ∷ h) n (hit_match x h n hit))
    | inr miss ↦ rw miss (
        FindsFirst-cons x h n (strstr_loop h n) (ground arith) (miss_match x h n hn go miss)
          (strstr_loop-FindsFirst h n hn))
  ])
]

-- For a needle that is not empty: `strstr` returns NULL exactly when the needle does not occur in
-- the text, and otherwise a pointer to its first occurrence.
pub strstr-FindsFirst : (h n : Bytes) → deref n ≢ 0 → FindsFirst h n (strstr (some h) (some n))
unfolding strstr
strstr-FindsFirst h n hn = elim (Bool-cases (deref n == 0)) [
  | inl e ↦ absurd (hn (ground arith))
  | inr e ↦ rw e (strstr_loop-FindsFirst h n hn)
]

strstr_loop-skip :
    (pre rest m : Bytes) (x : ℕ)
    → x ≢ 0
    → NoNul m
    → NoNul pre
    → Lacks x pre
    → strstr_loop (pre ++ ((x ∷ m) ++ rest)) (x ∷ m) ≡ some ((x ∷ m) ++ rest)
unfolding strstr_loop
strstr_loop-skip [] rest m x hx hm h l =
    let here : deref (strstr_match (x ∷ (m ++ rest)) (x ∷ m)) ≡ 0 =
      strstr_match_complete (x ∷ (m ++ rest)) (x ∷ m) (cstr rest)
        (rw (cstr_self (x ∷ m) (hx, hm)) (cstr-append (x ∷ m) rest (hx, hm))) in
    ground (arith, here)
strstr_loop-skip (c ∷ pre) rest m x hx hm (hc, h) (lc, l) =
    ground (arith, strstr_loop-skip pre rest m x hx hm h l)

-- Behind bytes that are not its first one, a text is found where it stands.
pub strstr-skip :
    (pre rest m : Bytes) (x : ℕ)
    → x ≢ 0
    → NoNul m
    → NoNul pre
    → Lacks x pre
    → strstr (some (pre ++ ((x ∷ m) ++ rest))) (some (x ∷ m)) ≡ some ((x ∷ m) ++ rest)
unfolding strstr
strstr-skip pre rest m x hx hm h l = ground (arith, strstr_loop-skip pre rest m x hx hm h l)
