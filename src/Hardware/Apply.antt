-- ===== src/Hardware/Apply.antt =====
-- src/daemon/modes.c: `cli_mode_apply`, which moves the daemon to a partition and chooses the
-- profile of the scheduler for it.
use x3d_toggle_main.Prelude.{ℕ, not, ◌==◌, if◌then◌else◌, ℤ, pos, negsuc}
use x3d_toggle_main.Libc.Strings.Equal.{is_zero}
use x3d_toggle_main.Kernel.{Kernel}
use x3d_toggle_main.Hardware.Modes.{Machine}
use x3d_toggle_main.Hardware.Affinity.{affinity_partition}
use x3d_toggle_main.Hardware.Scheduler.{sched_gaming, sched_balanced, scheduler_set}

abbrev pub part_dual : ℕ
part_dual = 0

abbrev pub part_cache : ℕ
part_cache = 1

abbrev pub part_freq : ℕ
part_freq = 2

module _ (k : Kernel) where
  unfoldable pub cli_mode_apply : ℕ → Machine k → Machine k × ℤ
  cli_mode_apply part m =
      let moved = affinity_partition k (pos 0) part m.kernel in
      let target_sched = if part == part_cache then sched_gaming else sched_balanced in
      if not (k.geteuid m.kernel == 0)
      then (m, pos 0)
      else if not (is_zero moved.1)
      then (record m { kernel = moved.0 }, negsuc 0)
      else (record m { kernel = (scheduler_set k target_sched moved.0).0 }, pos 0)
