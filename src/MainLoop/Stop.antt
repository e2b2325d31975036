-- ===== src/MainLoop/Stop.antt =====
-- How the main loop ends.
use x3d_toggle_main.Prelude.{◌≡◌, ap, ◌∙◌, true, false, some, ◌++◌, Bytes, All, if◌then◌else◌}
use x3d_toggle_main.Kernel.{Kernel}
use x3d_toggle_main.Config.Load.{Reals}
use x3d_toggle_main.Socket.State.{Host}
use x3d_toggle_main.Socket.Commands.{prefix, daemon_disable}
use x3d_toggle_main.Socket.Handle.{serve}
use x3d_toggle_main.Socket.Dispatch.{Plain, Ends, socket_handle-serve}
use x3d_toggle_main.MainLoop.{Event, Loop, stopped, after_request, after_handle, serve_event, round}

-- While the loop runs, a round in which DAEMON_DISABLE is received, with any text behind it, is the
-- last one: the loop stops before it polls, so that the flag is the only thing that has changed.
pub round-disable :
    (reals : Reals) (k : Kernel) (host : Host reals k) (games_path : Bytes) (e : Event)
    (l : Loop reals k host games_path) (arg rest : Bytes)
    → All Plain arg
    → Ends rest
    → l.daemon.active_keep ≡ true
    → e.request ≡ some (some ((prefix daemon_disable ++ arg) ++ rest))
    → round reals k host games_path e l
      ≡ stopped (record l { daemon = record l.daemon { active_keep = false } })
unfolding round serve_event after_handle after_request serve
round-disable reals k host games_path e l arg rest plain ends runs received =
    let served = socket_handle-serve reals k host l.daemon daemon_disable arg rest plain ends in
    ap (λ b. if b then serve_event reals k host games_path e l e.request else stopped l) runs
    ∙ ap (serve_event reals k host games_path e l) received
    ∙ ap (after_handle reals k host games_path e l) served
