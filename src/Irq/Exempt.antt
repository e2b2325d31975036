-- ===== src/Irq/Exempt.antt =====
-- The names of the threads that `irq_watch` exempts: how they are cut out of the setting, and what
-- `load_config` puts into the setting.
use x3d_toggle_main.Prelude.{
  ◌++◌, List, if◌then◌else◌, ◌<◌, ◌≤◌, ◌≡◌, ◌≢◌, refl, ap, ◌||◌, ◌==◌, Option, none, some, [], ◌∷◌,
  Bytes, codes, cstr, drop, length, length-append, length-cstr, deref, All, arith,
}
use x3d_toggle_main.Libc.Strings.{strstr}
use x3d_toggle_main.Libc.Strings.Substring.{FindsFirst, strstr-FindsFirst}
use x3d_toggle_main.Libc.Bounded.{printf_s}
use x3d_toggle_main.Kernel.{Kernel}
use x3d_toggle_main.Irq.Config.{search_key, text_at, parse_conf_str, parsed_config}
use x3d_toggle_main.Irq.Watch.{skip_separator}

-- what is left behind one token and the separator that ends it
abbrev next_token : Bytes → Bytes → Bytes
next_token token ex = skip_separator (drop (length token) ex)

-- From 1 to 63 bytes, with no separator and no NUL among them.
abbrev pub IsToken : Bytes → Type 0
IsToken token =
    (0 < length token) × (length token ≤ 63) × All (λ c. (c ≢ 0) × (c ≢ b',') × (c ≢ b' ')) token

-- The bytes of the text that are no separators, in their order.
abbrev pub letters : Bytes → Bytes
letters [] = []
letters (c ∷ ex) =
    let rest = letters ex in
    if c == 0 then [] else if c == b',' || c == b' ' then rest else c ∷ rest

abbrev pub joined : List Bytes → Bytes
joined [] = []
joined (token ∷ tokens) = token ++ joined tokens

-- The loop has ended with tokens that are good and hold every byte but the separators.
abbrev pub Cut : Bytes → Option (List Bytes) → Type 0
Cut ex none = ⊥
Cut ex (some tokens) = All IsToken tokens × (joined tokens ≡ letters ex)

-- A text shorter than the key does not hold the key.
strstr_short :
    (h n : Bytes) → deref n ≢ 0 → length h < length (cstr n) → strstr (some h) (some n) ≡ none
strstr_short h n hn short = found (strstr (some h) (some n)) (strstr-FindsFirst h n hn)
  where
    found : (o : Option Bytes) → FindsFirst h n o → o ≡ none
    found none f = refl
    found (some p) (a, e, ep, _) =
        let le = length-cstr h in
        let l1 = length-append a (cstr p) in
        let l2 = length-append (cstr n) (drop (length (cstr n)) (cstr p)) in
        absurd (omega (arith, short, le, ap length e, ap length ep, l1, l2))

abbrev pub thread_exempt_key : Bytes
thread_exempt_key = codes "THREAD_EXEMPT="

search_thread_exempt : search_key (codes "THREAD_EXEMPT") ≡ thread_exempt_key
unfolding search_key printf_s cstr
search_thread_exempt = refl

absent_key : (custom : Bytes) → length custom < 14 → parse_conf_str custom "THREAD_EXEMPT" 512 ≡ []
unfolding parse_conf_str text_at
absent_key custom h =
    let key_length : length (cstr thread_exempt_key) ≡ 14 = unfold cstr in refl in
    rw
      (
        search_thread_exempt,
        strstr_short custom thread_exempt_key (omega arith) (omega (arith, h, key_length)),
      )
      refl

-- Whatever the text of the settings, the lines with THREAD_EXEMPT included: where the value of
-- IRQ_CUSTOM is shorter than "THREAD_EXEMPT=", as the number of a core is, no thread is exempt.
parsed_config_exempt :
    (buf : Bytes)
    → length (parse_conf_str buf "IRQ_CUSTOM" 4096) < 14
    → (parsed_config buf).thread_exempt ≡ []
unfolding parsed_config
parsed_config_exempt buf short = absent_key (parse_conf_str buf "IRQ_CUSTOM" 4096) short
