-- ===== src/MainLoop/Leaving.antt =====
-- How a daemon that runs leaves when it gets a signal.
use x3d_toggle_main.Prelude.{ℕ, codes, [], ◌∷◌, Bytes, if◌then◌else◌}
use x3d_toggle_main.Kernel.{Kernel}
use x3d_toggle_main.Config.Load.{Reals, DaemonConfig}
use x3d_toggle_main.Socket.State.{Host, Daemon}
use x3d_toggle_main.Socket.Setup.{Sockets}
use x3d_toggle_main.MainLoop.{Loop}
use x3d_toggle_main.MainLoop.Run.{Run}
use x3d_toggle_main.MainLoop.Startup.{Standing, serving, after_loop}

module _ (reals : Reals) (k : Kernel) (host : Host reals k) (games_path : Bytes)
    (sockets : Sockets k) (cfg0 : DaemonConfig reals.Real) (current0 target0 : Bytes) where
  abbrev L : Type 0
  L = Loop reals k host games_path

  abbrev R : Type 0
  R = Run reals k host games_path

  abbrev M : Type 0
  M = Standing reals k host games_path sockets cfg0 current0 target0

  abbrev looped : ℕ → R → M
  looped = after_loop reals k host games_path sockets cfg0 current0 target0

  loop_of : L → M → L
  loop_of l0 (serving l) = l
  loop_of l0 m = l0

  -- Behind the loop, by the calls that are made: the socket is closed, the eBPF program is cleaned up
  -- where it was active, reset.sh is run, and the path of the socket is removed.
  abbrev pub restored : ℕ → Daemon reals k → k.State
  restored fd d =
      let closed = sockets.close_socket fd d.machine.kernel in
      let cleaned = if d.bpf_active then host.bpf_cleanup closed else closed in
      k.unlink (codes "/run/x3d-toggle/x3d-toggle.ipc")
        (k.spawn (codes "/bin/sh" ∷ (codes "/usr/lib/x3d-toggle/scripts/tools/reset.sh" ∷ []))
          cleaned).0
