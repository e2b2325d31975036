-- ===== src/Libc/Chars.antt =====
-- src/libc.c: `toupper` and `isspace`.
use x3d_toggle_main.Prelude.{ℕ, ◌-◌, ◌≡◌, Bool, ◌&&◌, ◌||◌, leb, ◌==◌, if◌then◌else◌, arith}

unfoldable pub toupper : ℕ → ℕ
toupper c = if leb b'a' c && leb c b'z' then c - (b'a' - b'A') else c

unfoldable pub isspace : ℕ → Bool
isspace c = c == b' ' || c == b'\t' || c == b'\n' || c == b'\r' || c == 0x0c || c == 0x0b

pub toupper_idem : (c : ℕ) → toupper (toupper c) ≡ toupper c
unfolding toupper
toupper_idem c = ground arith
