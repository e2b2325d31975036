-- ===== src/Irq/Listed.antt =====
-- What `discover_irqs` lists, against a description of it without the loop.
use x3d_toggle_main.Prelude.{
  ℕ, zero, suc, ◌-◌, ◌≤◌, ◌≡◌, refl, sym, ap, ◌∙◌, inl, inr, true, ◌&&◌, some, List, [], ◌∷◌, ◌++◌,
  append-nil, append_assoc, ltb, if◌then◌else◌, String, ℤ, Bytes, codes, cstr, Bool-cases, take,
  length, length-append, length-take, All, arith,
}
use x3d_toggle_main.Libc.Numbers.{atoi}
use x3d_toggle_main.Errors.{is_positive}
use x3d_toggle_main.Lines.{split_lines}
use x3d_toggle_main.Games.Load.{contains}
use x3d_toggle_main.Kernel.{Kernel}
use x3d_toggle_main.Irq.Discover.{
  irq_max_vectors, interrupts_path, add_line, discover_lines, discover_read, discover_irqs,
}

-- The numbers at the start of the lines that have the token, where they are positive.
abbrev pub device_irqs : Bytes → List Bytes → List ℤ
device_irqs token [] = []
device_irqs token (line ∷ lines) =
    if contains line token && is_positive (atoi line)
    then atoi line ∷ device_irqs token lines
    else device_irqs token lines

take-append :
    (n : ℕ) (xs ys : List ℤ) → length xs ≤ n → take n (xs ++ ys) ≡ xs ++ take (n - length xs) ys
take-append n [] ys h = let e : n - 0 ≡ n = omega arith in rw e refl
take-append zero (x ∷ xs) ys h = absurd (omega arith)
take-append (suc n) (x ∷ xs) ys h =
    let e : suc n - suc (length xs) ≡ n - length xs = omega arith in
    rw e (ap (◌∷◌ x) (take-append n xs ys (omega arith)))

discover_lines_lem :
    (token : Bytes) (irqs : List ℤ) (lines : List Bytes)
    → length irqs ≤ irq_max_vectors
    → discover_lines token irqs lines
      ≡ irqs ++ take (irq_max_vectors - length irqs) (device_irqs token lines)
unfolding discover_lines add_line
discover_lines_lem token irqs [] h = rw (take_nil (64 - length irqs)) (sym (append-nil irqs))
  where
    take_nil : (n : ℕ) → take {A = ℤ} n [] ≡ []
    take_nil zero = refl
    take_nil (suc n) = refl
discover_lines_lem token irqs (line ∷ lines) h =
    elim (Bool-cases (ltb (length irqs) irq_max_vectors)) [
      | inr full ↦
          let none_left : irq_max_vectors - length irqs ≡ 0 = ground (arith, full) in
          rw (full, none_left) (sym (append-nil irqs))
      | inl room ↦ elim (Bool-cases (contains line token && is_positive (atoi line))) [
        | inr skip ↦ rw (room, skip) (discover_lines_lem token irqs lines h)
        | inl hit ↦
            let a = atoi line in
            let len = length-append irqs (a ∷ []) in
            let more : irq_max_vectors - length irqs ≡ suc (irq_max_vectors - length irqs - 1) =
              ground (arith, room) in
            let less : irq_max_vectors - length (irqs ++ (a ∷ []))
                ≡ irq_max_vectors - length irqs - 1 =
              omega (arith, len) in
            let ih =
              discover_lines_lem token (irqs ++ (a ∷ [])) lines (ground (arith, room, len)) in
            let shifted = ap (λ n. (irqs ++ (a ∷ [])) ++ take n (device_irqs token lines)) less in
            let back = ap (λ n. irqs ++ take n (a ∷ device_irqs token lines)) (sym more) in
            rw (room, hit) (ih ∙ shifted ∙ append_assoc irqs (a ∷ []) _ ∙ back)
      ]
    ]

take-All : (P : ℤ → Type 0) (n : ℕ) (xs : List ℤ) → All P xs → All P (take n xs)
take-All P zero xs h = tt
take-All P (suc n) [] h = tt
take-All P (suc n) (x ∷ xs) (hx, h) = (hx, take-All P n xs h)

device_irqs-All :
    (token : Bytes) (lines : List Bytes)
    → All (λ irq. is_positive irq ≡ true) (device_irqs token lines)
device_irqs-All token [] = tt
device_irqs-All token (line ∷ lines) =
    elim (Bool-cases (contains line token && is_positive (atoi line))) [
      | inl hit ↦ rw hit (ground (arith, hit), device_irqs-All token lines)
      | inr skip ↦ rw skip (device_irqs-All token lines)
    ]

-- Of what one read of at most 8191 bytes gives of /proc/interrupts, up to its first NUL if it has one,
-- `discover_irqs` gives, in order, the first 64 of the numbers with which the lines that have the token
-- start, those that are not positive left out; lines behind these bytes are missed. So it gives at
-- most 64 numbers, which is the room in the list, and all of them are positive.
pub discover_irqs-device_irqs :
    (k : Kernel) (token : String) (s : k.State) (buf : Bytes)
    → k.read_file interrupts_path 8191 s ≡ some buf
    → (discover_irqs k token s ≡ take 64 (device_irqs (codes token) (split_lines (cstr buf))))
      × (length (discover_irqs k token s) ≤ 64)
      × All (λ irq. is_positive irq ≡ true) (discover_irqs k token s)
unfolding discover_irqs discover_read
discover_irqs-device_irqs k token s buf h =
    let irqs = device_irqs (codes token) (split_lines (cstr buf)) in
    rw (h, discover_lines_lem (codes token) [] (split_lines (cstr buf)) (omega arith))
      (
        refl,
        omega (arith, length-take 64 irqs),
        take-All (λ irq. is_positive irq ≡ true) 64 irqs
            (device_irqs-All (codes token) (split_lines (cstr buf))),
      )
