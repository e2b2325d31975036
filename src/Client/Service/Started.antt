-- ===== src/Client/Service/Started.antt =====
-- What `cli_daemon_enable` comes to when systemctl has started the service.
use x3d_toggle_main.Prelude.{
  ℕ, zero, suc, ◌<◌, ◌≤◌, ◌≡◌, refl, Bool, true, false, Option, List, pos, Bytes, codes, arith, ℤ,
}
use x3d_toggle_main.Errors.{err_success}
use x3d_toggle_main.Kernel.{Kernel}
use x3d_toggle_main.Config.Load.{Reals}
use x3d_toggle_main.Socket.State.{Host, Daemon}
use x3d_toggle_main.Systemd.{unit_start}
use x3d_toggle_main.Client.{World, online, offline, err_ipc, socket_send, update_setting}
use x3d_toggle_main.Client.Requests.{in_state, default-sent}
use x3d_toggle_main.Client.Service.{send_retried, after_start, cli_daemon_enable}

module _ (reals : Reals) (k : Kernel) (host : Host reals k)
    (spawn : List Bytes → World reals k → World reals k × Option Bool)
    (pause : World reals k → World reals k) where
  abbrev W : Type 0
  W = World reals k

  -- the world after so many waits
  abbrev pub paused : ℕ → W → W
  paused zero w = w
  paused (suc n) w = paused n (pause w)

  abbrev pub IsOffline : W → Type 0
  IsOffline (offline s) = Unit
  IsOffline (online d) = ⊥

  offline-send :
      (w : W) → IsOffline w → socket_send reals k host (codes "SET_DAEMON default") w ≡ (w, err_ipc)
  unfolding socket_send
  offline-send (offline s) h = refl
  offline-send (online d) h = elim h [ ]

  send_retried-online :
      (n retries : ℕ) (w : W) (d : Daemon reals k)
      → n < retries
      → ((i : ℕ) → i < n → IsOffline (paused i w))
      → paused n w ≡ online d
      → send_retried reals k host spawn pause retries w
        ≡ (online (in_state reals k host (codes "default") d), true)
  unfolding send_retried
  send_retried-online n zero w d h before e = absurd (omega arith)
  send_retried-online zero (suc retries) w d h before e = rw (e, default-sent reals k host d) refl
  send_retried-online (suc n) (suc retries) w d h before e =
      let rest =
        send_retried-online n retries (pause w) d (omega arith)
          (λ i hi. before (suc i) (omega arith)) e in
      rw (offline-send w (before 0 (omega arith)), rest) refl

  send_retried-offline :
      (retries : ℕ) (w : W)
      → ((i : ℕ) → i < retries → IsOffline (paused i w))
      → send_retried reals k host spawn pause retries w ≡ (paused retries w, false)
  unfolding send_retried
  send_retried-offline zero w before = refl
  send_retried-offline (suc retries) w before =
      let rest = send_retried-offline retries (pause w) (λ i hi. before (suc i) (omega arith)) in
      rw (offline-send w (before 0 (omega arith)), rest) refl

  abbrev pub started : W → W × ℤ
  started w =
      unit_start spawn (update_setting reals k host (codes "DAEMON_STATE") (codes "default") w)

  -- If systemctl succeeds and the daemon listens after at most four waits, then cli_daemon_enable
  -- succeeds and leaves the daemon in the state "default".
  pub cli_daemon_enable-online :
      (n : ℕ) (w w1 : W) (d : Daemon reals k)
      → started w ≡ (w1, err_success)
      → n ≤ 4
      → ((i : ℕ) → i < n → IsOffline (paused i w1))
      → paused n w1 ≡ online d
      → cli_daemon_enable reals k host spawn pause w
        ≡ (online (in_state reals k host (codes "default") d), pos 0)
  unfolding cli_daemon_enable after_start
  cli_daemon_enable-online n w w1 d run few before e =
      rw (run, send_retried-online n 5 w1 d (omega arith) before e) refl

  -- If systemctl succeeds and no daemon listens at any of the five attempts, then
  -- cli_daemon_enable still returns success, after five waits.
  pub cli_daemon_enable-offline :
      (w w1 : W)
      → started w ≡ (w1, err_success)
      → ((i : ℕ) → i < 5 → IsOffline (paused i w1))
      → cli_daemon_enable reals k host spawn pause w ≡ (paused 5 w1, pos 0)
  unfolding cli_daemon_enable after_start
  cli_daemon_enable-offline w w1 run before = rw (run, send_retried-offline 5 w1 before) refl
