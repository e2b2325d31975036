-- ===== src/Hardware/Cppc.antt =====
-- src/daemon/cppc.c: the scaling of the frequency of the cores. `cppc_tdp` and `cppc_restore` run
-- a program.
pub mod Ccd
use x3d_toggle_main.Prelude.{
  ℕ, zero, suc, ◌+◌, ◌-◌, Bool, true, false, Option, none, some, List, [], ◌∷◌, ◌==◌, if◌then◌else◌,
  String, Bytes, codes, cstr, ℤ, pos, negsuc,
}
use x3d_toggle_main.Libc.Strings.Equal.{is_zero}
use x3d_toggle_main.Libc.Bounded.{printf_d}
use x3d_toggle_main.Kernel.{Kernel, wronly}
use x3d_toggle_main.Errors.{err_success, err_io, err_hw, is_negative, write_result}
use x3d_toggle_main.Hardware.{Topology, cpu_path}

-- `fd >= 0` and `write(…) < 0`
unfoldable pub write_failed : Option ℤ → Bool
write_failed none = false
write_failed (some n) = is_negative n

-- `waitpid` and the test of its status
unfoldable pub exit_result : Option Bool → ℤ
exit_result none = err_io
exit_result (some ok) = if ok then err_success else err_io

module _ (k : Kernel) (cores : Topology) where
  -- The loop over `count` cores from `i` on, with `ret`.
  unfoldable pub write_cores : String → Bytes → ℕ → ℕ → ℤ → k.State → k.State × ℤ
  write_cores node val zero i ret s = (s, ret)
  write_cores node val (suc count) i ret s =
      let written = k.write_file wronly (cpu_path (pos i) node) val s in
      write_cores node val count (i + 1) (if write_failed written.1 then err_io else ret) written.0

  set_switch : String → Bool → k.State → k.State × ℤ
  set_switch path enable s =
      let written = k.write_file wronly (codes path) (if enable then codes "1" else codes "0") s in
      (written.0, write_result err_hw err_io written.1)

  unfoldable pub cppc_boost : Bool → k.State → k.State × ℤ
  unfolding set_switch
  cppc_boost enable s = set_switch "/sys/devices/system/cpu/cpufreq/boost" enable s

  unfoldable pub cppc_prefcore : Bool → k.State → k.State × ℤ
  unfolding set_switch
  cppc_prefcore enable s = set_switch "/sys/devices/system/cpu/amd_pstate/prefcore" enable s

  unfoldable pub cppc_tdp : ℤ → k.State → k.State × ℤ
  cppc_tdp watts s =
      let run =
        k.spawn
          (codes "/usr/bin/x3d-toggle"
            ∷ codes "framework"
            ∷ codes "--set-tdp"
            ∷ printf_d 16 watts
            ∷ [])
          s in
      (run.0, exit_result run.1)

  unfoldable pub cppc_perf : ℤ → k.State → k.State × ℤ
  cppc_perf val s =
      write_cores "/acpi_cppc/desired_perf" (printf_d 16 val) cores.total_cores 0 err_success s

  unfoldable pub cppc_epp : Bytes → k.State → k.State × ℤ
  cppc_epp val s =
      write_cores "/cpufreq/energy_performance_preference" (cstr val) cores.total_cores 0
        err_success s

  unfoldable pub cppc_ccd : ℤ → Bytes → k.State → k.State × ℤ
  cppc_ccd ccd val s =
      let start = if is_zero ccd then 0 else cores.ccd1_start in
      let end = if is_zero ccd then cores.ccd1_start else cores.total_cores in
      write_cores "/cpufreq/energy_performance_preference" (cstr val) (end - start) start
        err_success s

  unfoldable pub cppc_pstate : Bytes → k.State → k.State × ℤ
  cppc_pstate val s =
      let written =
        k.write_file wronly (codes "/sys/devices/system/cpu/amd_pstate/status") (cstr val) s in
      (written.0, write_result err_hw err_io written.1)

  unfoldable pub cppc_governor : Bytes → k.State → k.State × ℤ
  cppc_governor val s =
      write_cores "/cpufreq/scaling_governor" (cstr val) cores.total_cores 0 err_success s

  unfoldable pub cppc_restore : k.State → k.State × ℤ
  cppc_restore s =
      let run =
        k.spawn (codes "/bin/sh" ∷ codes "/usr/lib/x3d-toggle/scripts/tools/reset.sh" ∷ []) s in
      (run.0, exit_result run.1)
