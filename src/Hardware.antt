-- ===== src/Hardware.antt =====
-- The operations that set the machine: the mode of the 3D cache, the cores that are online, the
-- scaling of the frequency, the partitions of the cores and the scheduler. Each is called with the
-- kernel and with its state.
pub mod Modes
pub mod Cppc
pub mod Affinity
pub mod Scheduler
pub mod Apply
use x3d_toggle_main.Prelude.{ℕ, ◌+◌, ◌++◌, codes, String, Bytes, ℤ}
use x3d_toggle_main.Libc.Bounded.{printf_d}

-- TOTAL_CORES and CCD1_START of the generated build/ccd.h
pub record Topology : Type 0 where
  pub total_cores : ℕ
  pub ccd1_start : ℕ

-- the path of a node of one core; no such path reaches the size of the buffer it is printed to
unfoldable pub cpu_path : ℤ → String → Bytes
cpu_path core node = codes "/sys/devices/system/cpu/cpu" ++ printf_d 64 core ++ codes node
