-- ===== src/Prelude/Int.antt =====
-- Signed integers over the native numbers, and the reading of a 32-bit pattern as an `int`.
use Prim.Native.Nat.{ℕ, ◌-◌, ◌^◌, ◌<◌}
use mathlib.Core.Path.{◌≡◌}
use native.Mathlib.Omega.{arith}
use x3d_toggle_main.Prelude.Tests.{ltb, leb, if◌then◌else◌}

-- `negsuc n` is -(n + 1).
pub data ℤ : Type 0 where
  pos : ℕ → ℤ
  negsuc : ℕ → ℤ

-- a - b, as an integer.
abbrev pub sub_ℕ : ℕ → ℕ → ℤ
sub_ℕ a b = if leb b a then pos (a - b) else negsuc (b - a - 1)

abbrev pub neg : ℕ → ℤ
neg n = sub_ℕ 0 n

abbrev pub int_mod : ℕ
int_mod = 2 ^ 32

-- An `int` is kept as its 32-bit pattern while it is computed with; this reads the pattern.
abbrev pub to_int : ℕ → ℤ
to_int w = if ltb w (2 ^ 31) then pos w else negsuc (int_mod - w - 1)

pub to_int-small : (w : ℕ) → w < 2 ^ 31 → to_int w ≡ pos w
to_int-small w h = ground arith
