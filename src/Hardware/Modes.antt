-- ===== src/Hardware/Modes.antt =====
-- src/daemon/modes.c: `find_path`, `mode`, `mode_path`, `cli_set_mode` and `cli_set_core`. The
-- state is the kernel's with the static `x3d_path_cache`, `none` while it is empty.
pub mod Node
use x3d_toggle_main.Prelude.{
  ℕ, ◌-◌, Bool, true, false, Option, none, some, List, [], ◌∷◌, ◌++◌, ◌==◌, if◌then◌else◌, Bytes,
  codes, cstr, take, length, ℤ,
}
use x3d_toggle_main.Libc.Strings.{strchr}
use x3d_toggle_main.Libc.Bounded.{printf_s}
use x3d_toggle_main.Kernel.{Kernel, wronly, readable}
use x3d_toggle_main.Errors.{err_success, err_hw, err_io, write_result}
use x3d_toggle_main.Hardware.{cpu_path}

unfoldable pub targets : List Bytes
targets =
    codes "/sys/class/amd_x3d/vcache_mode"
    ∷ codes "/sys/bus/platform/devices/AMDI0101:00/amd_x3d_mode"
    ∷ codes "/sys/devices/platform/AMDI0101:00/amd_x3d_mode"
    ∷ codes "/sys/bus/pci/drivers/amd_x3d_vcache/vcache_mode"
    ∷ codes "/sys/bus/platform/drivers/amd_x3d_vcache/AMDI0101:00/amd_x3d_mode"
    ∷ []

-- what is left of `current_mode` when `p` is where its first line ends
unfoldable pub cut_line : Bytes → Option Bytes → Bytes × ℤ
cut_line current none = (current, err_success)
cut_line current (some p) = (take (length current - length p) current, err_success)

-- behind the read of `mode`, with what `current_mode` holds before
unfoldable pub read_mode : Bytes → Option Bytes → Bytes × ℤ
read_mode stale none = (stale, err_hw)
read_mode stale (some []) = (stale, err_io)
read_mode stale (some (c ∷ rest)) =
    let current = cstr (c ∷ rest) in cut_line current (strchr (some current) b'\n')

module _ (k : Kernel) where
  pub record Machine : Type 0 where
    pub kernel : k.State
    pub x3d_path_cache : Option Bytes

  -- the loop over `targets`
  unfoldable pub first_readable : List Bytes → k.State → Option Bytes
  first_readable [] s = none
  first_readable (path ∷ paths) s =
      if k.access readable path s then some path else first_readable paths s

  -- The path, which is also what the cache holds afterwards: every target fits it.
  unfoldable pub find_path : Machine → Option Bytes
  find_path m = elim m.x3d_path_cache [
    | none ↦ first_readable targets m.kernel
    | some path ↦ some path
  ]

  -- `current_mode` with `max_len` bytes, which holds `stale` before the call
  mode_at : ℕ → Bytes → Machine → Option Bytes → Bytes × ℤ
  mode_at max_len stale m none = (printf_s max_len (codes "unknown"), err_hw)
  mode_at max_len stale m (some path) = read_mode stale (k.read_file path (max_len - 1) m.kernel)

  unfoldable pub mode : ℕ → Bytes → Machine → Machine × (Bytes × ℤ)
  unfolding mode_at
  mode max_len stale m =
      let path = find_path m in (record m { x3d_path_cache = path }, mode_at max_len stale m path)

  unfoldable pub mode_path : ℕ → Machine → Machine × Option Bytes
  mode_path size m =
      let path = find_path m in
      (
        record m { x3d_path_cache = path },
        elim path [ none ↦ none | some p ↦ some (printf_s size p) ],
      )

  set_mode_at : Bytes → Machine → Option Bytes → Machine × ℤ
  set_mode_at target m none = (record m { x3d_path_cache = none }, err_hw)
  set_mode_at target m (some path) =
      let (s, n) = k.write_file wronly path (cstr target) m.kernel in
      (record m { kernel = s; x3d_path_cache = some path }, write_result err_hw err_io n)

  unfoldable pub cli_set_mode : Bytes → Machine → Machine × ℤ
  unfolding set_mode_at
  cli_set_mode target m = set_mode_at target m (find_path m)

  abbrev pub cli_set_dual : Machine → Machine × ℤ
  cli_set_dual = cli_set_mode (codes "dual")

  abbrev pub cli_set_swap : Machine → Machine × ℤ
  cli_set_swap = cli_set_mode (codes "swap")

  unfoldable pub cli_set_core : ℤ → Bool → Machine → Machine × ℤ
  cli_set_core core_id online m =
      let val = if online then codes "1" else codes "0" in
      let (s, n) = k.write_file wronly (cpu_path core_id "/online") val m.kernel in
      (record m { kernel = s }, write_result err_hw err_io n)
