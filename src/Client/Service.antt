-- ===== src/Client/Service.antt =====
-- The commands of src/daemon/daemon.c that start and stop the daemon, `cli_mode_auto` of
-- src/daemon/modes.c, and `cli_config_update` and `cli_config_server` of src/daemon/config.c. The
-- programs that they run may start or stop the daemon: `spawn` works on the whole world, and so does
-- `pause`, the tenth of a second that `nanosleep` waits.
pub mod Started
pub mod Stopped
use x3d_toggle_main.Prelude.{
  ℕ, zero, suc, ◌-◌, Bool, true, false, Option, none, some, List, [], ◌∷◌, ◌++◌, if◌then◌else◌, ℤ,
  pos, Bytes, codes, cstr, take, drop, get_elem?, ◌==◌, deref, length, ltb, leb,
}
use x3d_toggle_main.Libc.Strings.{strchr}
use x3d_toggle_main.Libc.Strings.Equal.{is_zero, str_eq, starts_with}
use x3d_toggle_main.Libc.Bounded.{printf_s}
use x3d_toggle_main.Errors.{err_success, err_io, err_syntax}
use x3d_toggle_main.Hardware.Cppc.{exit_result}
use x3d_toggle_main.Kernel.{Kernel}
use x3d_toggle_main.Config.Load.{Reals}
use x3d_toggle_main.Socket.State.{Host}
use x3d_toggle_main.Games.Edit.{Edit, done, overrun, game_add, game_remove}
use x3d_toggle_main.Systemd.{unit_start, unit_stop, unit_enable, unit_disable}
use x3d_toggle_main.Client.{
  World, socket_send, update_setting, config_write, world_kernel, set_world_kernel,
}

module _ (reals : Reals) (k : Kernel) (host : Host reals k)
    (spawn : List Bytes → World reals k → World reals k × Option Bool)
    (pause : World reals k → World reals k) where
  abbrev W : Type 0
  W = World reals k

  -- `while (retries-- > 0)`, and `ipc_ok`
  unfoldable pub send_retried : ℕ → W → W × Bool
  send_retried zero w = (w, false)
  send_retried (suc retries) w =
      let sent = socket_send reals k host (codes "SET_DAEMON default") w in
      let rest = send_retried retries (pause sent.0) in
      if is_zero sent.1 then (sent.0, true) else rest

  -- behind `unit_start`
  unfoldable pub after_start : W × ℤ → W × ℤ
  after_start (w, res) = if is_zero res then ((send_retried 5 w).0, pos 0) else (w, pos 1)

  unfoldable pub cli_daemon_enable : W → W × ℤ
  cli_daemon_enable w =
      after_start
        (unit_start spawn (update_setting reals k host (codes "DAEMON_STATE") (codes "default") w))

  unfoldable pub cli_daemon_start : W → W × ℤ
  cli_daemon_start w = cli_daemon_enable (unit_enable spawn w).0

  unfoldable pub cli_daemon_stop : W → W × ℤ
  cli_daemon_stop w =
      let stopped = unit_stop spawn w in (stopped.0, if is_zero stopped.1 then pos 0 else pos 1)

  unfoldable pub cli_daemon_disable : W → W × ℤ
  cli_daemon_disable w =
      let res =
        unit_disable spawn
          (update_setting reals k host (codes "DAEMON_STATE") (codes "manual") w) in
      (res.0, if is_zero res.1 then pos 0 else pos 1)

  -- behind DAEMON_DISABLE
  unfoldable pub after_disable : W × ℤ → W
  after_disable (w, res) = if is_zero res then w else (unit_stop spawn (unit_disable spawn w).0).0

  unfoldable pub cli_mode_auto : W → W × ℤ
  cli_mode_auto w =
      let reset =
        (spawn (codes "/bin/sh" ∷ (codes "/usr/lib/x3d-toggle/scripts/tools/reset.sh" ∷ [])) w).0 in
      (after_disable (socket_send reals k host (codes "DAEMON_DISABLE") reset), pos 0)

  -- at most 31 arguments, the two of the program included
  unfoldable pub cli_framework : List Bytes → W → W × ℤ
  cli_framework argv w =
      let ran =
        spawn
          (codes "/usr/bin/sh"
            ∷ (codes "/usr/lib/x3d-toggle/scripts/framework/framework.sh" ∷ take 29 (drop 2 argv)))
          w in
      if ltb (length argv) 3 then (w, err_syntax) else (ran.0, exit_result ran.1)

  -- `usr_libs` is the macro USR_LIBS
  unfoldable pub cli_config_update : Bytes → W → W × ℤ
  cli_config_update usr_libs w =
      let path = printf_s 256 (usr_libs ++ codes "/scripts/framework/config.sh") in
      let ran = spawn (codes "/bin/sh" ∷ (path ∷ (codes "--update" ∷ []))) w in
      if is_zero (exit_result ran.1)
      then ((socket_send reals k host (codes "CONFIG_SYNC") ran.0).0, err_success)
      else (ran.0, err_io)

  -- the address and the port: at the first colon, or the argument and the next one
  unfoldable pub server_parts : Bytes → Option Bytes → Bytes × Bytes
  server_parts arg next = elim (strchr (some arg) b':') [
    | some colon ↦
        (cstr (take 127 (take (length arg - length colon) arg)), cstr (take 31 (drop 1 colon)))
    | none ↦ (cstr (take 127 arg), elim next [ none ↦ [] | some port ↦ cstr (take 31 port) ])
  ]

  unfoldable pub set_server : Bytes → Bytes → W → W
  set_server ip port w =
      let address =
        (config_write reals k host (printf_s 256 (codes "SET_CONFIG SERVER_ADDRESS " ++ ip))
          (codes "SERVER_ADDRESS") ip w).0 in
      if deref port == 0
      then address
      else (config_write reals k host (printf_s 256 (codes "SET_CONFIG SERVER_PORT " ++ port))
          (codes "SERVER_PORT") port address).0

  unfoldable pub cli_config_server : List Bytes → W → W × ℤ
  cli_config_server argv w = elim (get_elem? argv 2) [
    | none ↦ (w, pos 1)
    | some arg ↦
        let parts = server_parts (cstr arg) (get_elem? argv 3) in
        (set_server parts.0 parts.1 w, pos 0)
  ]
