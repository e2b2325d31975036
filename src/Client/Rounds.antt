-- ===== src/Client/Rounds.antt =====
-- The commands that wake the daemon or choose a mode, and the next round of polling in the daemon.
use x3d_toggle_main.Prelude.{
  ◌≡◌, refl, ap, ◌∙◌, inl, inr, Bool, true, not, ◌&&◌, ◌||◌, [], ◌==◌, ltb, pos, Bytes, codes, cstr,
  Bool-cases,
}
use x3d_toggle_main.Libc.Strings.{strcmp}
use x3d_toggle_main.Libc.Strings.Equal.{is_zero, str_eq}
use x3d_toggle_main.Libc.Bounded.{printf_s}
use x3d_toggle_main.Kernel.{Kernel, IsNode, Side, frequency_side}
use x3d_toggle_main.Config.Fields.{daemon_state, key_name}
use x3d_toggle_main.Config.Load.{Reals, Value, text, same_field, assign}
use x3d_toggle_main.Hardware.Apply.{part_freq}
use x3d_toggle_main.Polling.{Settings, polling_run}
use x3d_toggle_main.Polling.Swap.{Shown, wanted, polling_run-chosen}
use x3d_toggle_main.Socket.State.{Host, Daemon, set_kernel}
use x3d_toggle_main.Socket.Settings.{clear_override, save}
use x3d_toggle_main.Socket.Modes.{enter_mode}
use x3d_toggle_main.Client.{World, online, offline, send_default, cli_daemon_wake}
use x3d_toggle_main.Client.Requests.{in_state, synced, default-sent, send_frequency, send_sync}

abbrev pub text_of : {Real : Type 0} → Value Real → Bytes
text_of (text t) = t
text_of _ = []

module _ {reals : Reals} {k : Kernel} where
  -- the globals that `polling_run` reads
  abbrev pub settings_of : Daemon reals k → Settings
  settings_of d = record {
    active_override = d.active_override;
    wrapper_lock = d.wrapper_lock;
    daemon_state = text_of (d.cfg.field daemon_state);
  }

  -- the daemon behind a command, `d` where it is gone
  abbrev pub daemon_after : Daemon reals k → World reals k → Daemon reals k
  daemon_after d (online d1) = d1
  daemon_after d (offline _) = d

module _ (reals : Reals) (k : Kernel) (host : Host reals k) where
  -- What SET_DAEMON leaves of the state: its own value, and the lock of the wrapper.
  pub in_state_lem :
      (val : Bytes) (d : Daemon reals k)
      → ((in_state reals k host val d).cfg.field daemon_state ≡ text (printf_s 32 val))
        × ((in_state reals k host val d).wrapper_lock ≡ d.wrapper_lock)
  unfolding clear_override save set_kernel assign same_field str_eq strcmp key_name
  in_state_lem val d =
      elim (Bool-cases (
        not (d.active_override == 0)
        && (str_eq val (codes "auto") || str_eq val (codes "default")))) [
          | inl e ↦ rw e (refl, refl)
          | inr e ↦ rw e (refl, refl)
        ]

  pub wake_lem :
      (d : Daemon reals k)
      → cli_daemon_wake reals k host (online d) ≡ (
        online (
            enter_mode reals k host
              (codes "frequency")
              2
              part_freq
              (in_state reals k host (codes "default") (synced reals k host d))),
        pos 0,
      )
  unfolding cli_daemon_wake send_default
  wake_lem d =
      rw
        (
          send_sync reals k host d,
          default-sent reals k host (synced reals k host d),
          send_frequency reals k host
              (in_state reals k host (codes "default") (synced reals k host d)),
        )
        refl

  -- The daemon behind `cli_daemon_wake`.
  abbrev pub woken : Daemon reals k → Daemon reals k
  woken d = daemon_after d (cli_daemon_wake reals k host (online d)).0

  wake-settings :
      (d : Daemon reals k)
      → ((woken d).active_override ≡ 2)
        × (text_of ((woken d).cfg.field daemon_state) ≡ codes "default")
        × ((woken d).wrapper_lock ≡ d.wrapper_lock)
  unfolding enter_mode printf_s cstr
  wake-settings d =
      let synced_d = synced reals k host d in
      let kept = in_state_lem (codes "default") synced_d in
      rw (wake_lem d) (refl, ap text_of kept.0, kept.1)

  module _ (path : Bytes) (node : IsNode k path) (d : Daemon reals k) (eg pg : Bool)
      (buffer target : Bytes) (current : Side) (unlocked : is_zero d.wrapper_lock ≡ true) where
    -- The command that wakes a daemon that listens succeeds. Where the node of the driver then shows a
    -- mode: after the next round of polling, without the lock of the wrapper, it shows "frequency", also when a game is detected: the
    -- command has set the override of that mode.
    pub cli_daemon_wake-frequency :
        Shown k path node current (woken d).machine
        → ((cli_daemon_wake reals k host (online d)).1 ≡ pos 0)
          × Shown k path node frequency_side
              (polling_run k (settings_of (woken d)) eg pg buffer target (woken d).machine).0
    unfolding str_eq strcmp
    cli_daemon_wake-frequency shown =
        let set = wake-settings d in
        let free : is_zero (woken d).wrapper_lock ≡ true = ap is_zero set.2 ∙ unlocked in
        let automatic : (ltb (woken d).active_override 3
              && str_eq (text_of ((woken d).cfg.field daemon_state)) (codes "default"))
            ≡ true =
          rw (set.0, set.1) refl in
        let chosen =
          polling_run-chosen k path node (settings_of (woken d)) free eg pg buffer current
            (woken d).machine shown target automatic in
        let frequency : wanted (woken d).active_override (eg || pg) ≡ frequency_side =
          rw set.0 refl in
        (ap (λ r. r.1) (wake_lem d), rw frequency at chosen)
