-- ===== src/Libc/Bounded/Append.antt =====
-- `strlcat_local` appends within its size, and a row of calls cuts the whole text once.
use x3d_toggle_main.Prelude.{
  ℕ, zero, suc, ◌+◌, ◌-◌, ◌<◌, ◌≡◌, refl, sym, ap, ◌∙◌, inl, inr, [], ◌∷◌, ◌++◌, leb, Bytes, cstr,
  cstr_self, NoNul, take, length, length-append, length-take, take-all, arith, Bool-cases,
}
use x3d_toggle_main.Libc.Strings.Compare.{strlen-cstr}
use x3d_toggle_main.Libc.Bounded.{strlcat_local}

pub take-append : (n : ℕ) (xs ys : Bytes) → take n (xs ++ ys) ≡ take n xs ++ take (n - length xs) ys
take-append zero [] ys = refl
take-append zero (x ∷ xs) ys = let e : 0 - suc (length xs) ≡ 0 = omega arith in rw e
take-append (suc n) [] ys = let e : suc n - 0 ≡ suc n = omega arith in rw e
take-append (suc n) (x ∷ xs) ys =
    let e : suc n - suc (length xs) ≡ n - length xs = omega arith in
    rw e (ap (◌∷◌ x) (take-append n xs ys))

pub NoNul-take : (n : ℕ) (xs : Bytes) → NoNul xs → NoNul (take n xs)
NoNul-take zero xs h = tt
NoNul-take (suc n) [] h = tt
NoNul-take (suc n) (x ∷ xs) (hx, h) = (hx, NoNul-take n xs h)

-- What is appended is what has room.
pub strlcat_local_lem :
    (dst src : Bytes) (size : ℕ)
    → length (cstr dst) < size
    → (strlcat_local dst src size).0 ≡ cstr dst ++ take (size - 1 - length (cstr dst)) (cstr src)
unfolding strlcat_local
strlcat_local_lem dst src size h =
    rw (strlen-cstr dst, strlen-cstr src)
      (elim (Bool-cases (leb size (length (cstr dst) + length (cstr src)))) [
        | inl cut ↦ ground (arith, cut)
        | inr whole ↦ ground (
          arith,
          whole,
          take-all (length (cstr src)) (cstr src),
          take-all (size - 1 - length (cstr dst)) (cstr src),
        )
      ])

-- The destination stays within `size - 1` bytes.
pub strlcat_local_bound :
    (dst src : Bytes) (size : ℕ)
    → length (cstr dst) < size
    → length (strlcat_local dst src size).0 < size
strlcat_local_bound dst src size h =
    let k = size - 1 - length (cstr dst) in
    rw (strlcat_local_lem dst src size h)
      (omega (arith, length-append (cstr dst) (take k (cstr src)), length-take k (cstr src)))

-- For texts without NUL and a size that is not 0, appending to a text that was cut at `size - 1`
-- bytes gives the longer text, cut there.
pub strlcat_local-take :
    (text src : Bytes) (size : ℕ)
    → NoNul text
    → NoNul src
    → 0 < size
    → (strlcat_local (take (size - 1) text) src size).0 ≡ take (size - 1) (text ++ src)
strlcat_local-take text src size ht hs h =
    let dst = take (size - 1) text in
    let e : cstr dst ≡ dst = cstr_self dst (NoNul-take (size - 1) text ht) in
    let lt : length (cstr dst) < size = rw e (omega (arith, length-take (size - 1) text)) in
    let room : size - 1 - length dst ≡ size - 1 - length text =
      omega (arith, length-take (size - 1) text) in
    strlcat_local_lem dst src size lt
    ∙ rw (e, cstr_self src hs, room) (sym (take-append (size - 1) text src))
