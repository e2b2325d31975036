-- ===== src/Libc/Strings/Equal.antt =====
-- The two tests that the program writes most: `strcmp(a, b) == 0`, and `strncmp` with the length
-- of its second argument.
use x3d_toggle_main.Prelude.{
  ℕ, zero, suc, ◌≡◌, ◌↔◌, refl, sym, ap, ◌∙◌, Bool, true, false, some, [], ◌∷◌, ◌++◌, ◌==◌, ℤ, pos,
  negsuc, Bytes, cstr, cstr_self, NoNul, length, length-append, ◌-◌, take, drop, arith,
}
use x3d_toggle_main.Libc.Strings.{strlen, strcmp, strncmp}
use x3d_toggle_main.Libc.Strings.Compare.{strlen-cstr, strcmp-zero, strncmp-zero}

abbrev pub is_zero : ℤ → Bool
is_zero (pos n) = n == 0
is_zero (negsuc n) = false

pub is_zero_iff : (z : ℤ) → (is_zero z ≡ true) ↔ (z ≡ pos 0)
is_zero_iff (pos n) = ground arith
is_zero_iff (negsuc n) = ground arith

-- `strcmp(a, b) == 0`
unfoldable pub str_eq : Bytes → Bytes → Bool
str_eq a b = is_zero (strcmp (some a) (some b))

pub str_eq_iff : (a b : Bytes) → (str_eq a b ≡ true) ↔ (cstr a ≡ cstr b)
unfolding str_eq
str_eq_iff a b =
    let z = is_zero_iff (strcmp (some a) (some b)) in
    let e = strcmp-zero a b in (λ h. e.0 (z.0 h), λ h. z.1 (e.1 h))

pub str_eq_exact : (a b : Bytes) → NoNul a → NoNul b → (str_eq a b ≡ true) ↔ (a ≡ b)
str_eq_exact a b ha hb =
    let e = str_eq_iff a b in
    (
      λ h. sym (cstr_self a ha) ∙ e.0 h ∙ cstr_self b hb,
      λ h. e.1 (cstr_self a ha ∙ h ∙ sym (cstr_self b hb)),
    )

-- `strncmp(s, key, strlen(key)) == 0`
unfoldable pub starts_with : Bytes → Bytes → Bool
starts_with s key = is_zero (strncmp (some s) (some key) (strlen (some key)))

take-length : (xs : Bytes) → take (length xs) xs ≡ xs
take-length [] = refl
take-length (x ∷ xs) = ap (◌∷◌ x) (take-length xs)

pub take-append-drop : (n : ℕ) (xs : Bytes) → take n xs ++ drop n xs ≡ xs
take-append-drop zero xs = refl
take-append-drop (suc n) [] = refl
take-append-drop (suc n) (x ∷ xs) = ap (◌∷◌ x) (take-append-drop n xs)

pub take-length-append : (xs ys : Bytes) → take (length xs) (xs ++ ys) ≡ xs
take-length-append [] ys = refl
take-length-append (x ∷ xs) ys = ap (◌∷◌ x) (take-length-append xs ys)

pub take-minus-append : (xs ys : Bytes) → take (length (xs ++ ys) - length ys) (xs ++ ys) ≡ xs
take-minus-append xs ys =
    let e : length (xs ++ ys) - length ys ≡ length xs = omega (arith, length-append xs ys) in
    rw e (take-length-append xs ys)

-- For texts without NUL: the text is the key with something behind it.
pub starts_with_iff :
    (s key : Bytes)
    → NoNul s
    → NoNul key
    → (starts_with s key ≡ true) ↔ (s ≡ key ++ drop (length key) s)
unfolding starts_with
starts_with_iff s key hs hk =
    let n = strlen (some key) in
    let len : n ≡ length key = strlen-cstr key ∙ ap length (cstr_self key hk) in
    let z = is_zero_iff (strncmp (some s) (some key) n) in
    let e = strncmp-zero n s key in
    let es : cstr s ≡ s = cstr_self s hs in
    let ek : cstr key ≡ key = cstr_self key hk in
    (
      λ h. cc (e.0 (z.0 h), len, es, ek, take-length key, take-append-drop (length key) s),
      λ h. z.1 (
          e.1 (cc (len, es, ek, h, take-length-append key (drop (length key) s), take-length key))),
    )

-- For a key without NUL: the first bytes of the C string are the key.
pub starts_with-take :
    (s key : Bytes) → NoNul key → (starts_with s key ≡ true) ↔ (take (length key) (cstr s) ≡ key)
unfolding starts_with
starts_with-take s key hk =
    let n = strlen (some key) in
    let len : n ≡ length key = strlen-cstr key ∙ ap length (cstr_self key hk) in
    let z = is_zero_iff (strncmp (some s) (some key) n) in
    let e = strncmp-zero n s key in
    let ek : cstr key ≡ key = cstr_self key hk in
    (
      λ h. cc (e.0 (z.0 h), len, ek, take-length key),
      λ h. z.1 (e.1 (cc (len, ek, h, take-length key))),
    )
