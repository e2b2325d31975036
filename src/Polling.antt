-- ===== src/Polling.antt =====
-- src/daemon/polling/polling.c: `polling_run`, which the main loop calls once in each round. What
-- the two ways to detect a game answer is given as two flags; the statistics and the journal are
-- left out. `target` is the buffer of the main loop, which lives from one round to the next.
pub mod Swap
use x3d_toggle_main.Prelude.{
  ℕ, Bool, true, false, not, ◌&&◌, ◌||◌, [], ◌∷◌, ◌==◌, ltb, if◌then◌else◌, Bytes, codes, cstr, ℤ,
}
use x3d_toggle_main.Libc.Strings.{strlen}
use x3d_toggle_main.Libc.Strings.Equal.{is_zero, str_eq}
use x3d_toggle_main.Libc.Bounded.{printf_s}
use x3d_toggle_main.Prelude.{some}
use x3d_toggle_main.Kernel.{Kernel}
use x3d_toggle_main.Hardware.Modes.{Machine, mode, cli_set_mode}

-- the globals that `polling_run` reads
pub record Settings : Type 0 where
  pub active_override : ℕ
  pub wrapper_lock : ℤ
  pub daemon_state : Bytes

-- what the automatic mode chooses
unfoldable pub choose_target : ℕ → Bool → Bytes
choose_target active_override game =
    if active_override == 1
    then codes "cache"
    else if active_override == 2
    then codes "frequency"
    else if game
    then codes "cache"
    else codes "frequency"

module _ (k : Kernel) where
  -- `sysfs_ok && strcmp(current, target) != 0 && strlen(target) > 0`
  unfoldable pub apply_target : Bool → Bytes → Bytes → Machine k → Machine k
  apply_target sysfs_ok current target m =
      if sysfs_ok && not (str_eq current target) && ltb 0 (strlen (some target))
      then (cli_set_mode k target m).0
      else m

  -- The state of the machine and the buffers `current` and `target` afterwards; `current` is the
  -- buffer before the call.
  unfoldable pub polling_run :
      Settings → Bool → Bool → Bytes → Bytes → Machine k → Machine k × (Bytes × Bytes)
  polling_run g eg pg buffer target m =
      let (m1, (current, ret)) = mode k 32 buffer m in
      let sysfs_ok = is_zero ret in
      if not (is_zero g.wrapper_lock)
      then (apply_target sysfs_ok current (codes "cache") m1, (current, printf_s 32 current))
      else if ltb g.active_override 3 && str_eq g.daemon_state (codes "default")
      then (let chosen = choose_target g.active_override (eg || pg) in
          (apply_target sysfs_ok current chosen m1, (current, chosen)))
      else (apply_target sysfs_ok current target m1, (current, printf_s 32 current))
