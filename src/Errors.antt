-- ===== src/Errors.antt =====
-- src/include/error.h: the results of the operations that can fail.
use x3d_toggle_main.Prelude.{
  ◌==◌, Bool, true, false, not, Option, none, some, ℤ, pos, negsuc, if◌then◌else◌,
}

abbrev pub err_success : ℤ
err_success = pos 0

abbrev pub err_lost : ℤ
err_lost = negsuc 0

abbrev pub err_io : ℤ
err_io = negsuc 2

abbrev pub err_hw : ℤ
err_hw = negsuc 4

abbrev pub err_syntax : ℤ
err_syntax = negsuc 5

abbrev pub err_remove : ℤ
err_remove = negsuc 15

abbrev pub err_mem : ℤ
err_mem = negsuc 28

abbrev pub err_cgroup : ℤ
err_cgroup = negsuc 33

abbrev pub err_invalid_args : ℤ
err_invalid_args = negsuc 37

-- `n > 0`
abbrev pub is_positive : ℤ → Bool
is_positive (pos n) = not (n == 0)
is_positive (negsuc n) = false

-- `n < 0`
abbrev pub is_negative : ℤ → Bool
is_negative (pos n) = false
is_negative (negsuc n) = true

-- What an operation returns that opens a node, writes to it once and closes it: its result where
-- open fails, success where `n > 0`, else its result where write fails.
unfoldable pub write_result : ℤ → ℤ → Option ℤ → ℤ
write_result unopened unwritten none = unopened
write_result unopened unwritten (some n) = if is_positive n then err_success else unwritten
