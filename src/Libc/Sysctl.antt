-- ===== src/Libc/Sysctl.antt =====
-- src/libc.c: `sysctl_read` and `sysctl_write`.
use x3d_toggle_main.Prelude.{
  ℕ, ◌-◌, Bool, false, ◌||◌, ◌&&◌, Option, none, some, [], ◌∷◌, ◌==◌, if◌then◌else◌, Bytes, cstr,
  length, ℤ, pos, negsuc,
}
use x3d_toggle_main.Kernel.{Kernel, wronly}

-- The loop that overwrites the blanks at the end.
unfoldable pub trim_end : Bytes → Bytes
trim_end [] = []
trim_end (c ∷ s) =
    let rest = trim_end s in
    if length rest == 0 && (c == b'\n' || c == b'\r' || c == b' ') then [] else c ∷ rest

-- `n == (ssize_t)len`
unfoldable pub is_length : ℕ → Option ℤ → Bool
is_length len none = false
is_length len (some (pos n)) = n == len
is_length len (some (negsuc n)) = false

module _ (k : Kernel) where
  -- the string in `buf`, or `none` for -1
  unfoldable pub sysctl_read : Bytes → ℕ → k.State → Option Bytes
  sysctl_read path size s = elim (k.read_file path (size - 1) s) [
    | none ↦ none
    | some buf ↦ if k.read_fails path s then none else some (cstr (trim_end buf))
  ]

  -- whether the result was 0
  unfoldable pub sysctl_write : Bytes → Bytes → k.State → k.State × Bool
  sysctl_write path val s =
      let written = k.write_file wronly path (cstr val) s in
      (written.0, is_length (length (cstr val)) written.1)
