-- ===== src/Status/Online.antt =====
-- The report of the status against the daemon that answers.
use x3d_toggle_main.Prelude.{
  ℕ, zero, suc, ◌-◌, ◌≤◌, ◌<◌, ◌^◌, ◌≡◌, ◌≢◌, refl, sym, ap, ◌∙◌, Bool, true, false, none, some, [],
  ◌∷◌, ◌++◌, map, if◌then◌else◌, pos, String, Bytes, codes, cstr, cstr_self, NoNul, Lacks, All,
  All-append, take, drop, length, take-all, append_assoc, arith,
}
use x3d_toggle_main.Libc.Strings.{strstr, strchr}
use x3d_toggle_main.Libc.Chars.{toupper}
use x3d_toggle_main.Libc.Strings.Substring.{strstr-skip}
use x3d_toggle_main.Libc.Strings.Span.{cstr-append}
use x3d_toggle_main.Libc.Strings.Search.{strchr-append, strchr-none}
use x3d_toggle_main.Libc.Strings.Equal.{str_eq, take-minus-append}
use x3d_toggle_main.Libc.Numbers.{is_digit}
use x3d_toggle_main.Libc.Numbers.Atoi.{atoi-flag}
use x3d_toggle_main.Libc.Bounded.{printf_s, itoa}
use x3d_toggle_main.Libc.Bounded.Append.{take-append}
use x3d_toggle_main.Libc.Bounded.Decimal.{itoa_lem, atoi-itoa-append}
use x3d_toggle_main.Config.Load.{Reals}
use x3d_toggle_main.Status.Info.{
  status_upper, behind, drop_found, cut_at, cut_separator, state_text, override_value, bpf_text,
  from_info,
}

-- The name of a state that stands unchanged in the answer to DAEMON_INFO.
pub record IsState (st : Bytes) : Type 0 where
  pub no_nul : NoNul st
  pub no_bar : Lacks b'|' st
  pub no_semicolon : Lacks b';' st
  pub no_o : Lacks b'O' st
  pub no_b : Lacks b'B' st
  pub short : length st ≤ 31

digits_lack :
    (c : ℕ) (xs : Bytes) → All (λ d. is_digit d ≡ true) xs → is_digit c ≡ false → Lacks c xs
digits_lack c [] h e = tt
digits_lack c (x ∷ xs) (hx, h) e = (ground (arith, hx, e), digits_lack c xs h e)

-- what follows the name of the state in the answer, with what follows BPF_ACTIVE
abbrev pub rest_of : ℕ → Bool → Bytes → Bytes
rest_of n bpf tail =
    codes "|OVERRIDE="
    ++ (itoa (pos n)
        ++ (codes "|BPF_ACTIVE=" ++ ((if bpf then codes "1" else codes "0") ++ (b'|' ∷ tail))))

abbrev pub answer_text : Bytes → ℕ → Bool → Bytes → Bytes
answer_text st n bpf tail = codes "STATE=" ++ (st ++ rest_of n bpf tail)

behind-at :
    (live_info : Bytes) (marker : String) (k : ℕ) (pre rest m : Bytes) (x : ℕ)
    → live_info ≡ pre ++ ((x ∷ m) ++ rest)
    → codes marker ≡ x ∷ m
    → x ≢ 0
    → NoNul m
    → NoNul pre
    → Lacks x pre
    → behind live_info marker k ≡ some (drop k ((x ∷ m) ++ rest))
unfolding behind
behind-at live_info marker k pre rest m x e em hx hm h l =
    (λ i. drop_found k (strstr (some (e i)) (some (em i))))
    ∙ ap (drop_found k) (strstr-skip pre rest m x hx hm h l)

pub Lacks-take : (c n : ℕ) (s : Bytes) → Lacks c s → Lacks c (take n s)
Lacks-take c zero s h = tt
Lacks-take c (suc n) [] h = tt
Lacks-take c (suc n) (x ∷ s) (hx, h) = (hx, Lacks-take c n s h)

Lacks-cstr : (c : ℕ) (s : Bytes) → Lacks c s → Lacks c (cstr s)
unfolding cstr
Lacks-cstr c [] h = tt
Lacks-cstr c (x ∷ s) (hx, h) = ground (arith, hx, Lacks-cstr c s h)

state_text-at :
    (st more : Bytes) → IsState st → Lacks b';' more → state_text (some (st ++ (b'|' ∷ more))) ≡ st
unfolding state_text cut_separator cut_at printf_s cstr
state_text-at st more is_state lacks =
    let q = take (62 - length st) (cstr more) in
    let text = st ++ (b'|' ∷ q) in
    let room : 63 - length st ≡ suc (62 - length st) = omega (arith, is_state.short) in
    let whole : printf_s 64 (st ++ (b'|' ∷ more)) ≡ text =
      ap (take 63) (cstr-append st (b'|' ∷ more) is_state.no_nul)
      ∙ take-append 63 st (b'|' ∷ cstr more)
      ∙ rw (take-all 63 st (omega (arith, is_state.short)), room) refl in
    let clean : Lacks b';' (cstr text) = Lacks-cstr b';' text (
      All-append _ st (b'|' ∷ q) is_state.no_semicolon
        (omega arith, Lacks-take b';' (62 - length st) (cstr more) (Lacks-cstr b';' more lacks))) in
    let none_there : strchr (some text) b';' ≡ none =
      (strchr-none text b';' (omega arith) (omega arith)).1 clean in
    let bar : strchr (some text) b'|' ≡ some (b'|' ∷ q) =
      strchr-append st q b'|' (omega arith) is_state.no_nul is_state.no_bar in
    ap cut_separator whole ∙ rw (cut_separator, none_there, bar) (take-minus-append st (b'|' ∷ q))

bpf_text-flag :
    (bpf : Bool) (tail : Bytes)
    → bpf_text (some ((if bpf then codes "1" else codes "0") ++ (b'|' ∷ tail)))
      ≡ (if bpf then codes "eBPF (Active)" else codes "Polling (Fallback)")
unfolding bpf_text
bpf_text-flag true tail = rw (atoi-flag tail).1 refl
bpf_text-flag false tail = rw (atoi-flag tail).0 refl

flag-Lacks :
    (bpf : Bool) (tail : Bytes)
    → Lacks b';' tail
    → Lacks b';' ((if bpf then codes "1" else codes "0") ++ (b'|' ∷ tail))
flag-Lacks true tail h = (omega arith, (omega arith, h))
flag-Lacks false tail h = (omega arith, (omega arith, h))

module _ (st : Bytes) (is_state : IsState st) (n : ℕ) (bpf : Bool) (tail : Bytes) where
  abbrev digits : Bytes
  digits = itoa (pos n)

  abbrev behind_override : Bytes
  behind_override =
      digits ++ (codes "|BPF_ACTIVE=" ++ ((if bpf then codes "1" else codes "0") ++ (b'|' ∷ tail)))

  state-behind : behind (answer_text st n bpf tail) "STATE=" 6 ≡ some (st ++ rest_of n bpf tail)
  state-behind =
      behind-at (answer_text st n bpf tail) "STATE=" 6 [] (st ++ rest_of n bpf tail) (codes "TATE=")
        b'S' refl refl (omega arith) (omega arith) tt tt

  override-behind : behind (answer_text st n bpf tail) "OVERRIDE=" 9 ≡ some behind_override
  override-behind =
      behind-at (answer_text st n bpf tail) "OVERRIDE=" 9 (codes "STATE=" ++ (st ++ codes "|"))
        behind_override (codes "VERRIDE=") b'O'
        (ap (λ t. codes "STATE=" ++ t)
          (sym (append_assoc st (codes "|") (codes "OVERRIDE=" ++ behind_override))))
        refl (omega arith) (omega arith)
        (All-append _ (codes "STATE=") _ (omega arith)
          (All-append _ st _ is_state.no_nul (omega arith)))
        (All-append _ (codes "STATE=") _ (omega arith)
          (All-append _ st _ is_state.no_o (omega arith)))

  bpf-behind :
      behind (answer_text st n bpf tail) "BPF_ACTIVE=" 11
      ≡ some ((if bpf then codes "1" else codes "0") ++ (b'|' ∷ tail))
  bpf-behind =
      let spelt = itoa_lem n in
      let before = codes "|OVERRIDE=" ++ (digits ++ codes "|") in
      let rest = (if bpf then codes "1" else codes "0") ++ (b'|' ∷ tail) in
      let inner =
        ap (λ t. codes "|OVERRIDE=" ++ t)
          (sym (append_assoc digits (codes "|") (codes "BPF_ACTIVE=" ++ rest))) in
      behind-at (answer_text st n bpf tail) "BPF_ACTIVE=" 11 (codes "STATE=" ++ (st ++ before)) rest
        (codes "PF_ACTIVE=") b'B'
        (ap (λ t. codes "STATE=" ++ t)
          (ap (λ t. st ++ t) inner ∙ sym (append_assoc st before (codes "BPF_ACTIVE=" ++ rest))))
        refl (omega arith) (omega arith)
        (All-append _ (codes "STATE=") _ (omega arith) (
          All-append _ st _ is_state.no_nul (
            All-append _ (codes "|OVERRIDE=") _ (omega arith)
              (All-append _ digits _ (digits_lack 0 digits spelt.0 refl) (omega arith)))))
        (All-append _ (codes "STATE=") _ (omega arith) (
          All-append _ st _ is_state.no_b (
            All-append _ (codes "|OVERRIDE=") _ (omega arith)
              (All-append _ digits _ (digits_lack b'B' digits spelt.0 refl) (omega arith)))))

  -- What the report takes from the answer.
  pub from_info-answer :
      (reals : Reals)
      → n < 2 ^ 31
      → Lacks b';' tail
      → ((from_info reals (answer_text st n bpf tail)).state ≡ map toupper st)
        × ((from_info reals (answer_text st n bpf tail)).override ≡ pos n)
        × ((from_info reals (answer_text st n bpf tail)).ebpf ≡ (
            if str_eq (map toupper st) (codes "DEFAULT")
            then if bpf then codes "eBPF (Active)" else codes "Polling (Fallback)"
            else codes "INACTIVE (MANUAL OVERRIDE)"))
  unfolding from_info status_upper override_value
  from_info-answer reals hn lacks =
      let spelt = itoa_lem n in
      let more = codes "OVERRIDE=" ++ behind_override in
      let flag_lacks : Lacks b';' ((if bpf then codes "1" else codes "0") ++ (b'|' ∷ tail)) =
        flag-Lacks bpf tail lacks in
      let clean : Lacks b';' more = All-append _ (codes "OVERRIDE=") _ (omega arith) (
        All-append _ digits _ (digits_lack b';' digits spelt.0 refl)
          (All-append _ (codes "|BPF_ACTIVE=") _ (omega arith) flag_lacks)) in
      let name : state_text (some (st ++ rest_of n bpf tail)) ≡ st =
        state_text-at st more is_state clean in
      let upper : status_upper (state_text (behind (answer_text st n bpf tail) "STATE=" 6))
          ≡ map toupper st =
        ap (λ o. status_upper (state_text o)) state-behind
        ∙ ap status_upper name
        ∙ ap (map toupper) (cstr_self st is_state.no_nul) in
      let over : override_value (behind (answer_text st n bpf tail) "OVERRIDE=" 9) ≡ pos n =
        ap override_value override-behind ∙ atoi-itoa-append n _ hn refl in
      let bpf_is : bpf_text (behind (answer_text st n bpf tail) "BPF_ACTIVE=" 11)
          ≡ (if bpf then codes "eBPF (Active)" else codes "Polling (Fallback)") =
        ap bpf_text bpf-behind ∙ bpf_text-flag bpf tail in
      (
        upper,
        over,
        (λ i.
            if str_eq (upper i) (codes "DEFAULT")
            then bpf_is i
            else codes "INACTIVE (MANUAL OVERRIDE)"),
      )
