-- ===== src/MainLoop/Startup.antt =====
-- src/daemon/daemon.c: the entry point of the daemon, from its start through the rounds to its end.
-- The globals that the loader sets to 0 are the parameter `cfg0`, and what the arrays `current` and
-- `target` hold on the stack is `current0` and `target0`. The signals that come before the loop and
-- `notify_ready` are left out.
use x3d_toggle_main.Prelude.{
  ℕ, ◌==◌, Bool, true, false, Option, none, some, List, [], if◌then◌else◌, pos, negsuc, Bytes,
  codes, deref,
}
use x3d_toggle_main.Libc.Strings.Equal.{str_eq}
use x3d_toggle_main.Kernel.{Kernel}
use x3d_toggle_main.Config.Fields.{daemon_state, ebpf_enable}
use x3d_toggle_main.Config.Load.{Reals, Value, int, text, real, DaemonConfig, assign, config_load}
use x3d_toggle_main.Games.Load.{games_load}
use x3d_toggle_main.Hardware.Affinity.{affinity_init}
use x3d_toggle_main.Hardware.Cppc.{cppc_restore}
use x3d_toggle_main.Hardware.Modes.{Machine, cli_set_mode}
use x3d_toggle_main.Socket.State.{Host, Daemon, set_kernel}
use x3d_toggle_main.Socket.Setup.{Sockets, ipc_path, socket_setup}
use x3d_toggle_main.MainLoop.{Event, Loop}
use x3d_toggle_main.MainLoop.Run.{Run, running, finished, killed, faulted, run}

module _ (reals : Reals) (k : Kernel) (host : Host reals k) (games_path : Bytes)
    (sockets : Sockets k) (cfg0 : DaemonConfig reals.Real) (current0 target0 : Bytes) where
  abbrev C : Type 0
  C = DaemonConfig reals.Real

  abbrev D : Type 0
  D = Daemon reals k

  abbrev L : Type 0
  L = Loop reals k host games_path

  unfoldable pub state_of : Value reals.Real → Bytes
  state_of (text t) = t
  state_of (int n) = []
  state_of (real r) = []

  -- `if (cfg.ebpf_enable)`
  unfoldable pub is_on : Value reals.Real → Bool
  is_on (int (pos n)) = not_zero n
    where
      not_zero : ℕ → Bool
      not_zero n = if n == 0 then false else true
  is_on (int (negsuc n)) = true
  is_on (text t) = false
  is_on (real r) = false

  -- an empty state becomes "default"
  unfoldable pub default_state : C → C
  default_state cfg =
      if deref (state_of (cfg.field daemon_state)) == 0
      then assign cfg daemon_state (text (codes "default"))
      else cfg

  -- `bpf_init`, where the settings ask for it
  unfoldable pub start_bpf : C → k.State → k.State × Bool
  start_bpf cfg s = if is_on (cfg.field ebpf_enable) then host.bpf_init s else (s, false)

  -- the mode, which is set again in the state "default"
  unfoldable pub first_mode : C → Machine k → Machine k
  first_mode cfg m =
      let once = (cli_set_mode k (codes "frequency") m).0 in
      if str_eq (state_of (cfg.field daemon_state)) (codes "default")
      then (cli_set_mode k (codes "frequency") once).0
      else once

  -- up to `socket_setup`
  unfoldable pub prepare : k.State → L
  prepare s =
      let loaded = config_load reals k host.conf_path host.build s cfg0 in
      let bpf = start_bpf loaded (affinity_init k host.ccd s).0 in
      let cfg = default_state loaded in
      record {
        daemon = record {
          machine = first_mode cfg (record { kernel = bpf.0; x3d_path_cache = none });
          cfg = cfg;
          active_override = 0;
          active_keep = true;
          wrapper_lock = pos 0;
          bpf_active = bpf.1;
        };
        current = current0;
        target = target0;
        games = games_load k games_path s;
        reload_flag = false;
      }

  -- behind the loop; the descriptor of the socket is `server_fd`
  unfoldable pub shut_down : ℕ → L → k.State
  shut_down server_fd l =
      let closed = sockets.close_socket server_fd l.daemon.machine.kernel in
      let cleaned = if l.daemon.bpf_active then host.bpf_cleanup closed else closed in
      k.unlink ipc_path (cppc_restore k host.cores cleaned).0

  -- How the process stands: it could not listen and has left with 1, its loop goes on, it has left
  -- with 0, it was ended by the failsafe, or it has faulted.
  pub data Standing : Type 0 where
    not_started left : k.State → Standing
    serving : L → Standing
    ended_by_failsafe ended_by_fault : Standing

  unfoldable pub after_loop : ℕ → Run reals k host games_path → Standing
  after_loop server_fd (running l) = serving l
  after_loop server_fd (finished l) = left (shut_down server_fd l)
  after_loop server_fd killed = ended_by_failsafe
  after_loop server_fd faulted = ended_by_fault

  -- behind `socket_setup`
  unfoldable pub enter_loop : List (List ℕ × Event) → L → k.State × Option ℕ → Standing
  enter_loop rounds l (s, none) = not_started s
  enter_loop rounds l (s, some server_fd) =
      after_loop server_fd
        (run reals k host games_path rounds (record l { daemon = set_kernel s l.daemon }))

  -- The entry point `daemon`, with what the first rounds bring.
  unfoldable pub daemon_main : List (List ℕ × Event) → k.State → Standing
  daemon_main rounds s =
      let l = prepare s in enter_loop rounds l (socket_setup k sockets l.daemon.machine.kernel)
