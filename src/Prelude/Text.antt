-- ===== src/Prelude/Text.antt =====
-- Bytes. A `char *` is the list of the bytes from where it points; the end of the list stands for
-- the terminating NUL, and a 0 inside the list ends the C string too.
use Prim.Native.Char.{code}
use Prim.Native.Nat.{ℕ, ◌≤◌}
use Prim.Native.String.{String}
use mathlib.Core.List.{List, [], ◌∷◌}
use mathlib.Core.Logic.{◌≢◌}
use mathlib.Core.Path.{◌≡◌, refl}
use native.Mathlib.Omega.{arith}
use x3d_toggle_main.Prelude.Lists.{length, All}
use x3d_toggle_main.Prelude.Tests.{◌==◌, if◌then◌else◌}

abbrev pub Bytes : Type 0
Bytes = List ℕ

-- The code points of a literal; these are its bytes, since every literal here is ASCII.
abbrev pub codes : String → Bytes
codes String.[] = []
codes (String.◌∷◌ c s) = code c ∷ codes s

-- `*p`
abbrev pub deref : Bytes → ℕ
deref [] = 0
deref (c ∷ s) = c

-- The C string that starts at a pointer: the bytes before the first NUL.
unfoldable pub cstr : Bytes → Bytes
cstr [] = []
cstr (c ∷ s) = if c == 0 then [] else c ∷ cstr s

-- No byte of the list is NUL.
abbrev pub NoNul : Bytes → Type 0
NoNul = All (λ c. c ≢ 0)

-- `byte` does not occur in the list.
abbrev pub Lacks : ℕ → Bytes → Type 0
Lacks b = All (λ c. c ≢ b)

pub cstr-NoNul : (s : Bytes) → NoNul (cstr s)
unfolding cstr
cstr-NoNul [] = tt
cstr-NoNul (c ∷ s) = ground (arith, cstr-NoNul s)

pub cstr_self : (s : Bytes) → NoNul s → cstr s ≡ s
unfolding cstr
cstr_self [] h = refl
cstr_self (c ∷ s) (hc, hs) = ground (arith, cstr_self s hs)

pub cstr_idem : (s : Bytes) → cstr (cstr s) ≡ cstr s
cstr_idem s = cstr_self (cstr s) (cstr-NoNul s)

pub length-cstr : (s : Bytes) → length (cstr s) ≤ length s
unfolding cstr
length-cstr [] = omega arith
length-cstr (c ∷ s) = ground (arith, length-cstr s)
