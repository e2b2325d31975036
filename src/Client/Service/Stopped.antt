-- ===== src/Client/Service/Stopped.antt =====
-- What `cli_daemon_disable` and `cli_mode_auto` leave of a daemon that listens.
use x3d_toggle_main.Prelude.{
  ◌≡◌, refl, Bool, true, false, Option, some, List, [], ◌∷◌, pos, Bytes, codes,
}
use x3d_toggle_main.Libc.Strings.{strncmp, strlen}
use x3d_toggle_main.Libc.Strings.Equal.{starts_with}
use x3d_toggle_main.Errors.{err_success}
use x3d_toggle_main.Kernel.{Kernel}
use x3d_toggle_main.Config.Load.{Reals}
use x3d_toggle_main.Config.Update.{config_update}
use x3d_toggle_main.Socket.State.{Host, Daemon, set_kernel}
use x3d_toggle_main.Socket.Commands.{prefix, daemon_disable}
use x3d_toggle_main.Socket.Handle.{serve}
use x3d_toggle_main.Systemd.{unit_disable, execute_unit_method, unit_result}
use x3d_toggle_main.Client.{
  World, online, answered, is_ok, socket_send, update_setting, world_kernel, set_world_kernel,
}
use x3d_toggle_main.Client.Requests.{send_command}
use x3d_toggle_main.Client.Service.{cli_daemon_disable, after_disable, cli_mode_auto}

module _ (reals : Reals) (k : Kernel) (host : Host reals k)
    (spawn : List Bytes → World reals k → World reals k × Option Bool)
    (pause : World reals k → World reals k) where
  abbrev W : Type 0
  W = World reals k

  abbrev pub disable_args : List Bytes
  disable_args = codes "/usr/bin/systemctl" ∷ (codes "disable" ∷ (codes "x3d-toggle.service" ∷ []))

  -- Where `systemctl disable` succeeds and leaves what runs alone: cli_daemon_disable returns success
  -- and a daemon that listens goes on as before, with all of its state; only the file of the
  -- settings is changed.
  cli_daemon_disable-online :
      (d : Daemon reals k)
      → ((w : W) → spawn disable_args w ≡ (w, some true))
      → cli_daemon_disable reals k host spawn pause (online d) ≡ (
        online (
            set_kernel
              (config_update k host.conf_path
                (codes "DAEMON_STATE")
                (codes "manual")
                d.machine.kernel)
              d),
        pos 0,
      )
  unfolding cli_daemon_disable unit_disable execute_unit_method update_setting world_kernel
      set_world_kernel unit_result
  cli_daemon_disable-online d left = rw (left _) refl

  disable-sent :
      (d : Daemon reals k)
      → socket_send reals k host (codes "DAEMON_DISABLE") (online d)
        ≡ (online (record d { active_keep = false }), err_success)
  unfolding prefix serve answered is_ok starts_with strncmp strlen
  disable-sent d =
      send_command reals k host d daemon_disable [] (codes "DAEMON_DISABLE") refl refl refl

  abbrev pub reset_args : List Bytes
  reset_args = codes "/bin/sh" ∷ (codes "/usr/lib/x3d-toggle/scripts/tools/reset.sh" ∷ [])

  -- Where a daemon listens when reset.sh has ended: cli_mode_auto clears the flag of the main loop,
  -- changes nothing else, and does not run systemctl.
  cli_mode_auto-online :
      (w : W) (d : Daemon reals k)
      → (spawn reset_args w).0 ≡ online d
      → cli_mode_auto reals k host spawn pause w
        ≡ (online (record d { active_keep = false }), pos 0)
  unfolding cli_mode_auto after_disable
  cli_mode_auto-online w d e = rw (e, disable-sent d) refl
