-- ===== src/Detection/Environ.antt =====
-- The loop over the environment of a process, against its entries.
use x3d_toggle_main.Prelude.{
  ℕ, zero, suc, ◌+◌, ◌≤◌, ◌≡◌, ◌≢◌, ◌⊎◌, ◌↔◌, ◌++◌, ◌&&◌, not, refl, Bool, true, false, ◌||◌, List,
  [], ◌∷◌, ◌==◌, Bytes, cstr, take, drop, length, length-take, length-append, length-drop, deref,
  codes, none, sym, ap, ◌∙◌, some, arith, Bool-cases, inl, inr,
}
use x3d_toggle_main.Libc.Strings.{strlen}
use x3d_toggle_main.Libc.Strings.Equal.{starts_with-take, take-append-drop, take-length-append}
use x3d_toggle_main.Libc.Strings.Compare.{strlen-cstr}
use x3d_toggle_main.Kernel.{Kernel}
use x3d_toggle_main.Detection.{
  is_app_entry, scan_environ, environ_read, comm_read, decided, proc_path, scan_pid_steam,
}

-- Where each entry starts: at the first byte and behind each NUL, if a byte follows.
abbrev pub entries_from : Bool → Bytes → List Bytes
entries_from start [] = []
entries_from true (c ∷ rest) = (c ∷ rest) ∷ entries_from (c == 0) rest
entries_from false (c ∷ rest) = entries_from (c == 0) rest

-- An entry of the environment that sets SteamAppId to something other than nothing and 0.
abbrev pub SetsApp : Bytes → Type 0
SetsApp entry = (v : Bytes) × (cstr entry ≡ codes "SteamAppId=" ++ v) × (v ≢ []) × (v ≢ codes "0")

abbrev pub AnyApp : List Bytes → Type 0
AnyApp [] = ⊥
AnyApp (entry ∷ entries) = SetsApp entry ⊎ AnyApp entries

cstr-drop : (n : ℕ) (s : Bytes) → n ≤ length (cstr s) → cstr (drop n s) ≡ drop n (cstr s)
unfolding cstr
cstr-drop zero s h = refl
cstr-drop (suc n) [] h = refl
cstr-drop (suc n) (c ∷ s) h = elim (Bool-cases (c == 0)) [
  | inl e ↦ absurd (omega (arith, (rw e at h)))
  | inr e ↦ rw e (cstr-drop n s (omega (arith, (rw e at h))))
]

abbrev good_value : Bytes → Bool
good_value a = not (deref a == 0) && not (deref a == b'0' && deref (drop 1 a) == 0)

-- Whether a C string is empty, by its first byte.
cstr-cases :
    (a : Bytes)
    → (((deref a == 0) ≡ true) × (cstr a ≡ []))
      ⊎ (((deref a == 0) ≡ false) × (cstr a ≡ deref a ∷ cstr (drop 1 a)))
unfolding cstr
cstr-cases [] = inl (refl, refl)
cstr-cases (c ∷ a) = elim (Bool-cases (c == 0)) [
  | inl e ↦ inl (e, (rw e refl))
  | inr e ↦ inr (e, (rw e refl))
]

good_value_iff : (a : Bytes) → (good_value a ≡ true) ↔ ((cstr a ≢ []) × (cstr a ≢ codes "0"))
good_value_iff a = elim (cstr-cases a) [
  | inl (z, e) ↦ (λ h. absurd (ground (arith, h, z)), λ h. absurd (h.0 e))
  | inr (z, e) ↦ elim (cstr-cases (drop 1 a)) [
    | inl (z2, e2) ↦ (
      λ h. (λ q. cc (e, q), λ q. ground (arith, h, z2, ap deref (sym e ∙ q))),
      λ h. elim (Bool-cases (deref a == b'0')) [
        | inl zero_byte ↦
            let first : deref a ≡ b'0' = ground (arith, zero_byte) in
            absurd (h.1 (cc (e, e2, first)))
        | inr other ↦ ground (arith, z, other)
      ],
    )
    | inr (z2, e2) ↦ (λ h. (λ q. cc (e, q), λ q. cc (e, e2, q)), λ h. ground (arith, z, z2))
  ]
]

is_app_entry_iff : (entry : Bytes) → (is_app_entry entry ≡ true) ↔ SetsApp entry
unfolding is_app_entry
is_app_entry_iff entry =
    let key = codes "SteamAppId=" in
    let starts = starts_with-take entry key (omega arith) in
    let value = good_value_iff (drop 11 entry) in
    (
      λ h.
          let cut : take 11 (cstr entry) ≡ key = starts.0 (ground (arith, h)) in
          let room : 11 ≤ length (cstr entry) =
            omega (arith, ap length cut, length-take 11 (cstr entry)) in
          let split : cstr entry ≡ key ++ drop 11 (cstr entry) =
            sym (take-append-drop 11 (cstr entry)) ∙ ap (λ t. t ++ drop 11 (cstr entry)) cut in
          let good = value.0 (ground (arith, h)) in
          let same = cstr-drop 11 entry room in
          (drop 11 (cstr entry), split, λ q. good.0 (same ∙ q), λ q. good.1 (same ∙ q)),
      λ (v, e, not_empty, not_zero).
          let cut : take 11 (cstr entry) ≡ key = rw e (take-length-append key v) in
          let behind : drop 11 (cstr entry) ≡ v = rw e refl in
          let room : 11 ≤ length (cstr entry) = omega (arith, ap length e, length-append key v) in
          let same = cstr-drop 11 entry room ∙ behind in
          let good = value.1 (λ q. not_empty (sym same ∙ q), λ q. not_zero (sym same ∙ q)) in
          ground (arith, good, starts.1 cut),
    )

abbrev pub any_app : List Bytes → Bool
any_app [] = false
any_app (entry ∷ entries) = is_app_entry entry || any_app entries

any_app_iff : (entries : List Bytes) → (any_app entries ≡ true) ↔ AnyApp entries
any_app_iff [] = (λ h. absurd (cc), λ h. elim h [ ])
any_app_iff (entry ∷ entries) =
    let here = is_app_entry_iff entry in
    let there = any_app_iff entries in
    (
      λ h. elim (Bool-cases (is_app_entry entry)) [
        | inl e ↦ inl (here.0 e)
        | inr e ↦ inr (there.0 (ground (arith, h, e)))
      ],
      λ h. elim h [ inl a ↦ ground (arith, here.1 a) | inr a ↦ ground (arith, there.1 a) ],
    )

-- What follows an entry that has started.
past_entry : (s : Bytes) → entries_from false s ≡ entries_from true (drop (suc (length (cstr s))) s)
unfolding cstr
past_entry [] = refl
past_entry (c ∷ s) = elim (Bool-cases (c == 0)) [ inl e ↦ rw e refl | inr e ↦ rw e (past_entry s) ]

pub scan_environ_lem :
    (fuel : ℕ) (s : Bytes) → length s ≤ fuel → scan_environ fuel s ≡ any_app (entries_from true s)
unfolding scan_environ
scan_environ_lem zero [] h = refl
scan_environ_lem zero (c ∷ s) h = absurd (omega (arith, h))
scan_environ_lem (suc fuel) [] h = refl
scan_environ_lem (suc fuel) (c ∷ s) h =
    let entry = c ∷ s in
    let len = strlen-cstr entry in
    let e : strlen (some entry) + 1 ≡ suc (length (cstr entry)) = omega (arith, len) in
    let shorter = length-drop (suc (length (cstr entry))) entry in
    let ih =
      scan_environ_lem fuel (drop (suc (length (cstr entry))) entry) (omega (arith, h, shorter)) in
    rw e (ap (λ b. is_app_entry entry || b) (ih ∙ ap any_app (sym (past_entry entry))))

-- For a process whose name decides nothing, as that of an engine or of a process of Steam itself would,
-- and an environment of which at most 4095 bytes are read: `scan_pid_steam` finds a game if and only
-- if one of the entries of these bytes sets SteamAppId to something that is neither empty nor "0".
pub scan_pid_steam-AnyApp :
    (k : Kernel) (pid_str buf : Bytes) (s : k.State)
    → (deref pid_str == 0) ≡ false
    → comm_read (k.read_file (proc_path 64 pid_str (codes "/comm")) 31 s) ≡ none
    → k.read_file (proc_path 64 pid_str (codes "/environ")) 4095 s ≡ some buf
    → length buf ≤ 4095
    → (scan_pid_steam k pid_str s ≡ true) ↔ AnyApp (entries_from true buf)
unfolding scan_pid_steam decided environ_read
scan_pid_steam-AnyApp k pid_str buf s named undecided read fits =
    rw (named, undecided, read, scan_environ_lem 4095 buf fits)
      (any_app_iff (entries_from true buf))
