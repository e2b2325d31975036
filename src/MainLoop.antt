-- ===== src/MainLoop.antt =====
-- src/daemon/daemon.c: one round of the main loop; src/systemd.c: `sig_handler`. What `select` and
-- the detections of games answer in a round is an event.
pub mod Stop
pub mod Run
pub mod Startup
pub mod Invariant
pub mod Leaving
use x3d_toggle_main.Prelude.{
  ℕ, Bool, true, false, not, ◌||◌, Option, none, some, List, [], ◌∷◌, ◌==◌, if◌then◌else◌, Bytes,
}
use x3d_toggle_main.Kernel.{Kernel}
use x3d_toggle_main.Config.Fields.{daemon_state}
use x3d_toggle_main.Config.Load.{Reals, Value, int, text, real, config_load}
use x3d_toggle_main.Games.Load.{games_load}
use x3d_toggle_main.Polling.{Settings, polling_run}
use x3d_toggle_main.Socket.State.{Host, Daemon, Outcome, replied, fault}
use x3d_toggle_main.Socket.Handle.{socket_handle}

-- the flags that a signal sets
pub record Flags : Type 0 where
  pub active_keep : Bool
  pub reload_flag : Bool
  pub last_sig : ℕ

-- `none` where the failsafe runs and the process ends. SIGTERM is 15, SIGINT 2 and SIGHUP 1.
unfoldable pub sig_handler : ℕ → Flags → Option Flags
sig_handler signum f =
    if signum == 15 || signum == 2
    then some (record f { active_keep = false; last_sig = signum })
    else if signum == 1
    then some (record f { reload_flag = true; last_sig = signum })
    else none

-- a request, if `select` reports one, with what `recv` gives; and what is detected
pub record Event : Type 0 where
  pub request : Option (Option Bytes)
  pub ebpf_game : Bool
  pub polled_game : Bool

module _ (reals : Reals) (k : Kernel) (host : Host reals k) (games_path : Bytes) where
  abbrev D : Type 0
  D = Daemon reals k

  -- The variables of `daemon` that last from round to round.
  pub record Loop : Type 0 where
    pub daemon : D
    pub current : Bytes
    pub target : Bytes
    pub games : List Bytes
    pub reload_flag : Bool

  pub data Round : Type 0 where
    stopped goes_on : Loop → Round
    crashed : Round

  text_of : Value reals.Real → Bytes
  text_of (text t) = t
  text_of (int n) = []
  text_of (real r) = []

  unfoldable pub reload : Loop → Loop
  reload l =
      if l.reload_flag
      then (let d = l.daemon in
          record l {
            daemon = record d {
              cfg = config_load reals k host.conf_path host.build d.machine.kernel d.cfg;
            };
            games = games_load k games_path d.machine.kernel;
            reload_flag = false;
          })
      else l

  unfoldable pub poll : Event → Loop → Loop
  unfolding text_of
  poll e l =
      let d = l.daemon in
      let g : Settings = record {
        active_override = d.active_override;
        wrapper_lock = d.wrapper_lock;
        daemon_state = text_of (d.cfg.field daemon_state);
      } in
      let (m, (current, target)) =
        polling_run k g e.ebpf_game e.polled_game l.current l.target d.machine in
      record l { daemon = record d { machine = m }; current = current; target = target }

  -- behind the request
  unfoldable pub after_request : Event → Loop → Round
  after_request e l = if not l.daemon.active_keep then stopped l else goes_on (reload (poll e l))

  -- behind `socket_handle`
  unfoldable pub after_handle : Event → Loop → Outcome reals k → Round
  after_handle e l fault = crashed
  after_handle e l (replied texts d) = after_request e (record l { daemon = d })

  unfoldable pub serve_event : Event → Loop → Option (Option Bytes) → Round
  serve_event e l none = after_request e l
  serve_event e l (some received) = after_handle e l (socket_handle reals k host received l.daemon)

  -- one round of `while (active_keep)`
  unfoldable pub round : Event → Loop → Round
  round e l = if l.daemon.active_keep then serve_event e l e.request else stopped l
