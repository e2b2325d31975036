-- ===== src/Client/Requests.antt =====
-- What becomes of the daemon when a command has sent its requests.
use x3d_toggle_main.Prelude.{
  ◌≡◌, refl, ap, ◌∙◌, inl, true, [], ◌∷◌, ◌++◌, ◌≤◌, length, leb, leb→le, sym, append-nil, take-all,
  cstr_self, NoNul, All-append, Bytes, codes, All,
}
use x3d_toggle_main.Libc.Strings.{strcmp, strncmp, strlen, strstr}
use x3d_toggle_main.Libc.Strings.Equal.{str_eq, starts_with}
use x3d_toggle_main.Errors.{err_success}
use x3d_toggle_main.Kernel.{Kernel}
use x3d_toggle_main.Config.Fields.{daemon_state}
use x3d_toggle_main.Config.Load.{Reals, text, config_load}
use x3d_toggle_main.Socket.State.{Host, Daemon}
use x3d_toggle_main.Socket.Commands.{Command, prefix, set_daemon, set_mode, config_sync}
use x3d_toggle_main.Socket.Settings.{handle_set_daemon, handle_config_sync, clear_override, save}
use x3d_toggle_main.Socket.Modes.{
  handle_set_mode, enter_mode, read_request, apply_request, has_text,
}
use x3d_toggle_main.Hardware.Apply.{part_freq}
use x3d_toggle_main.Libc.Bounded.{printf_s}
use x3d_toggle_main.Config.Load.{assign}
use x3d_toggle_main.Socket.Handle.{serve}
use x3d_toggle_main.Socket.Dispatch.{
  Plain, is_plain, is_plain-All, is_plain-prefix, socket_handle-serve,
}
use x3d_toggle_main.Client.{online, answered, is_ok, socket_send}

pub Plain-NoNul : (s : Bytes) → All Plain s → NoNul s
Plain-NoNul [] h = tt
Plain-NoNul (c ∷ s) (hc, h) = (hc.1, Plain-NoNul s h)

module _ (reals : Reals) (k : Kernel) (host : Host reals k) where
  -- A command that is the name of a request with an argument behind it reaches the branch of that
  -- request in the daemon, if it has at most 511 bytes.
  pub socket_send-serve :
      (d : Daemon reals k) (c : Command) (arg : Bytes)
      → All Plain arg
      → length (prefix c ++ arg) ≤ 511
      → socket_send reals k host (prefix c ++ arg) (online d)
        ≡ answered reals k host d (serve reals k host c arg d)
  unfolding socket_send
  socket_send-serve d c arg h fits =
      let plain = All-append Plain (prefix c) arg (is_plain-All (prefix c) (is_plain-prefix c)) h in
      let whole = cstr_self (prefix c ++ arg) (Plain-NoNul (prefix c ++ arg) plain) in
      let sent = take-all 511 (prefix c ++ arg) fits in
      let handled = socket_handle-serve reals k host d c arg [] h (inl refl) in
      rw (whole, sent, sym (append-nil (prefix c ++ arg))) (ap (answered reals k host d) handled)

  pub send_command :
      (d : Daemon reals k) (c : Command) (arg cmd : Bytes)
      → prefix c ++ arg ≡ cmd
      → is_plain arg ≡ true
      → leb (length cmd) 511 ≡ true
      → socket_send reals k host cmd (online d)
        ≡ answered reals k host d (serve reals k host c arg d)
  send_command d c arg cmd e h fits =
      let fits' : length cmd ≤ 511 = leb→le (length cmd) 511 fits in
      sym (ap (λ t. socket_send reals k host t (online d)) e)
      ∙ socket_send-serve d c arg (is_plain-All arg h) (rw e fits')

  -- the daemon behind SET_DAEMON with "default" or "manual"
  abbrev pub in_state : Bytes → Daemon reals k → Daemon reals k
  in_state val d =
      clear_override reals k host val (record (save reals k host (codes "DAEMON_STATE") val d) {
        cfg =
            assign (save reals k host (codes "DAEMON_STATE") val d).cfg daemon_state
              (text (printf_s 32 val));
      })

  pub send_manual :
      (d : Daemon reals k)
      → socket_send reals k host (codes "SET_DAEMON manual") (online d)
        ≡ (online (in_state (codes "manual") d), err_success)
  unfolding prefix serve handle_set_daemon str_eq strcmp answered is_ok starts_with strncmp strlen
  send_manual d =
      send_command d set_daemon (codes "manual") (codes "SET_DAEMON manual") refl refl refl

  pub default-sent :
      (d : Daemon reals k)
      → socket_send reals k host (codes "SET_DAEMON default") (online d)
        ≡ (online (in_state (codes "default") d), err_success)
  unfolding prefix serve handle_set_daemon str_eq strcmp answered is_ok starts_with strncmp strlen
  default-sent d =
      send_command d set_daemon (codes "default") (codes "SET_DAEMON default") refl refl refl

  pub send_frequency :
      (d : Daemon reals k)
      → socket_send reals k host (codes "SET_MODE frequency") (online d)
        ≡ (online (enter_mode reals k host (codes "frequency") 2 part_freq d), err_success)
  unfolding prefix serve handle_set_mode read_request apply_request has_text strstr str_eq strcmp
      answered is_ok starts_with strncmp strlen
  send_frequency d =
      send_command d set_mode (codes "frequency") (codes "SET_MODE frequency") refl refl refl

  abbrev pub synced : Daemon reals k → Daemon reals k
  synced d = record d { cfg = config_load reals k host.conf_path host.build d.machine.kernel d.cfg }

  pub send_sync :
      (d : Daemon reals k)
      → socket_send reals k host (codes "CONFIG_SYNC") (online d) ≡ (online (synced d), err_success)
  unfolding prefix serve handle_config_sync answered is_ok starts_with strncmp strlen
  send_sync d = send_command d config_sync [] (codes "CONFIG_SYNC") refl refl refl
