-- ===== src/Systemd.antt =====
-- src/systemd.c: the calls of systemctl, the restoring of the hardware, and the failsafe that runs
-- once. A program is run by fork, execve and waitpid on whatever state it can change: `spawn` gives
-- `none` where fork fails, else whether the program came to an end with status 0.
use x3d_toggle_main.Prelude.{
  Bool, true, false, Option, none, some, List, [], ◌∷◌, if◌then◌else◌, ℤ, Bytes, codes, negsuc,
}
use x3d_toggle_main.Errors.{err_success, err_io}
use x3d_toggle_main.Kernel.{Kernel}
use x3d_toggle_main.Hardware.{Topology}
use x3d_toggle_main.Hardware.Cppc.{cppc_restore}

-- the result of `execute_unit_method`
unfoldable pub unit_result : Option Bool → ℤ
unit_result none = err_io
unit_result (some ok) = if ok then err_success else negsuc 3

module _ {S : Type 0} (spawn : List Bytes → S → S × Option Bool) where
  abbrev systemctl : Bytes → S → S × Option Bool
  systemctl method s =
      spawn (codes "/usr/bin/systemctl" ∷ (method ∷ (codes "x3d-toggle.service" ∷ []))) s

  unfoldable pub execute_unit_method : Bytes → S → S × ℤ
  execute_unit_method method s = let ran = systemctl method s in (ran.0, unit_result ran.1)

  unfoldable pub unit_start : S → S × ℤ
  unit_start s = execute_unit_method (codes "start") s

  unfoldable pub unit_stop : S → S × ℤ
  unit_stop s = execute_unit_method (codes "stop") s

  unfoldable pub unit_enable : S → S × ℤ
  unit_enable s = execute_unit_method (codes "enable") s

  unfoldable pub unit_disable : S → S × ℤ
  unit_disable s = execute_unit_method (codes "disable") s

  unfoldable pub unit_active : S → S × Bool
  unit_active s =
      let ran = systemctl (codes "is-active") s in
      (ran.0, elim ran.1 [ none ↦ false | some ok ↦ ok ])

module _ (k : Kernel) (cores : Topology) where
  unfoldable pub daemon_restore : k.State → k.State
  daemon_restore s =
      let restored = (cppc_restore k cores s).0 in
      (k.spawn (codes "/bin/sh" ∷ codes "/usr/lib/x3d-toggle/scripts/tools/reset.sh" ∷ [])
        restored).0

  -- with the flag `failsafe_active`; what it writes to the terminal is left out
  unfoldable pub daemon_failsafe : Bool × k.State → Bool × k.State
  daemon_failsafe (failsafe_active, s) =
      if failsafe_active
      then (failsafe_active, s)
      else (true, daemon_restore (cppc_restore k cores s).0)
