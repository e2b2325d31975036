-- ===== src/Libc/Strings.antt =====
-- src/libc.c: the functions that read C strings. A pointer is `none` when it is NULL, and else the
-- bytes from where it points; a pointer into a string is a suffix of it.
pub mod Compare
pub mod Search
pub mod Substring
pub mod Equal
pub mod Span
use x3d_toggle_main.Prelude.{
  ℕ, zero, suc, ◌+◌, ◌%◌, Bool, not, ◌&&◌, Option, none, some, [], ◌∷◌, ◌==◌, if◌then◌else◌, ℤ, pos,
  negsuc, sub_ℕ, Bytes, deref,
}

abbrev pub Ptr : Type 0
Ptr = Option Bytes

-- `while (s[i]) i++`
strlen_loop : Bytes → ℕ → ℕ
strlen_loop [] i = i
strlen_loop (c ∷ s) i = if c == 0 then i else strlen_loop s (i + 1)

unfoldable pub strlen : Ptr → ℕ
unfolding strlen_loop
strlen none = 0
strlen (some s) = strlen_loop s 0

-- `while (*s1 && (*s1 == *s2))`, and the difference of the bytes where it stops
strcmp_loop : Bytes → Bytes → ℤ
strcmp_loop (c ∷ s) (d ∷ t) = if not (c == 0) && c == d then strcmp_loop s t else sub_ℕ c d
strcmp_loop s t = sub_ℕ (deref s) (deref t)

unfoldable pub strcmp : Ptr → Ptr → ℤ
unfolding strcmp_loop
strcmp none none = pos 0
strcmp none (some t) = negsuc 0
strcmp (some s) none = pos 1
strcmp (some s) (some t) = strcmp_loop s t

-- `while (n && *s1 && (*s1 == *s2))`
strncmp_loop : ℕ → Bytes → Bytes → ℤ
strncmp_loop zero s t = pos 0
strncmp_loop (suc n) (c ∷ s) (d ∷ t) =
    if not (c == 0) && c == d then strncmp_loop n s t else sub_ℕ c d
strncmp_loop (suc n) s t = sub_ℕ (deref s) (deref t)

unfoldable pub strncmp : Ptr → Ptr → ℕ → ℤ
unfolding strncmp_loop
strncmp s t zero = pos 0
strncmp none none (suc n) = pos 0
strncmp none (some t) (suc n) = negsuc 0
strncmp (some s) none (suc n) = pos 1
strncmp (some s) (some t) (suc n) = strncmp_loop (suc n) s t

-- `while (*s && *s != (char)c) s++`
strchr_loop : Bytes → ℕ → Ptr
strchr_loop [] c = if c == 0 then some [] else none
strchr_loop (x ∷ s) c =
    if not (x == 0) && not (x == c) then strchr_loop s c else if x == c then some (x ∷ s) else none

unfoldable pub strchr : Ptr → ℕ → Ptr
unfolding strchr_loop
strchr none c = none
strchr (some s) c = strchr_loop s (c % 256)

-- the inner loop: where `n1` stands when it ends
strstr_match : Bytes → Bytes → Bytes
strstr_match (x ∷ h) (y ∷ n) =
    if not (x == 0) && not (y == 0) && x == y then strstr_match h n else y ∷ n
strstr_match h n = n

-- `for (; *h; h++)`
strstr_loop : Bytes → Bytes → Ptr
strstr_loop [] n = none
strstr_loop (x ∷ h) n =
    let rest = strstr_loop h n in
    if x == 0
    then none
    else if x == deref n && deref (strstr_match (x ∷ h) n) == 0
    then some (x ∷ h)
    else rest

unfoldable pub strstr : Ptr → Ptr → Ptr
unfolding strstr_loop strstr_match
strstr none n = none
strstr (some h) none = none
strstr (some h) (some n) = if deref n == 0 then some h else strstr_loop h n

-- `while (s[n])`
strcspn_loop : Bytes → Bytes → ℕ → ℕ
strcspn_loop [] reject n = n
strcspn_loop (c ∷ s) reject n =
    let rest = strcspn_loop s reject (n + 1) in
    if c == 0 then n else elim (strchr (some reject) c) [ none ↦ rest | some _ ↦ n ]

unfoldable pub strcspn : Ptr → Ptr → ℕ
unfolding strcspn_loop
strcspn none reject = 0
strcspn (some s) none = 0
strcspn (some s) (some reject) = strcspn_loop s reject 0
