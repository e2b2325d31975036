-- ===== src/Client/Wrapper.antt =====
-- `run_game` of src/run.c: the lock of the wrapper around a game.
use x3d_toggle_main.Prelude.{◌≡◌, refl, none, some, List, pos, Bytes, codes}
use x3d_toggle_main.Libc.Strings.{strncmp, strlen}
use x3d_toggle_main.Libc.Strings.Equal.{starts_with}
use x3d_toggle_main.Libc.Numbers.{atoi}
use x3d_toggle_main.Errors.{err_success, err_io}
use x3d_toggle_main.Kernel.{Kernel}
use x3d_toggle_main.Config.Load.{Reals}
use x3d_toggle_main.Hardware.Modes.{cli_set_mode}
use x3d_toggle_main.Socket.State.{Host, Daemon}
use x3d_toggle_main.Socket.Commands.{prefix, set_wrapper}
use x3d_toggle_main.Socket.Handle.{serve}
use x3d_toggle_main.Socket.Modes.{handle_set_wrapper}
use x3d_toggle_main.Client.{
  World, online, answered, is_ok, socket_send, game_command, play, with_command, run_game,
}
use x3d_toggle_main.Client.Requests.{send_command}

module _ (reals : Reals) (k : Kernel) (host : Host reals k) where
  -- the daemon behind SET_WRAPPER 1, and behind SET_WRAPPER 0
  abbrev pub locked : Daemon reals k → Daemon reals k
  locked d = record d {
    machine = (cli_set_mode k (codes "cache") d.machine).0;
    active_override = 1;
    wrapper_lock = pos 1;
  }

  abbrev pub unlocked : Daemon reals k → Daemon reals k
  unlocked d = record d {
    machine = (cli_set_mode k (codes "frequency") d.machine).0;
    active_override = 0;
    wrapper_lock = pos 0;
  }

  send_lock :
      (d : Daemon reals k)
      → socket_send reals k host (codes "SET_WRAPPER 1") (online d)
        ≡ (online (locked d), err_success)
  unfolding prefix serve handle_set_wrapper atoi answered is_ok starts_with strncmp strlen
  send_lock d =
      send_command reals k host d set_wrapper (codes "1") (codes "SET_WRAPPER 1") refl refl refl

  send_unlock :
      (d : Daemon reals k)
      → socket_send reals k host (codes "SET_WRAPPER 0") (online d)
        ≡ (online (unlocked d), err_success)
  unfolding prefix serve handle_set_wrapper atoi answered is_ok starts_with strncmp strlen
  send_unlock d =
      send_command reals k host d set_wrapper (codes "0") (codes "SET_WRAPPER 0") refl refl refl

  -- A game that is started while a daemon listens runs with the lock of the wrapper set, override 1
  -- and the mode "cache" set; if the daemon, `d1`, still listens when the game has ended, then
  -- `run_game` succeeds and leaves it without the lock, with override 0 and the mode "frequency"
  -- set, whatever happened meanwhile.
  pub run_game-unlocks :
      (argv : List Bytes) (cmd : Bytes) (run : World reals k → World reals k)
      (d d1 : Daemon reals k)
      → game_command reals k host argv ≡ some cmd
      → run (online (locked d)) ≡ online d1
      → run_game reals k host argv (some run) (online d) ≡ (online (unlocked d1), err_success)
  unfolding run_game with_command play
  run_game-unlocks argv cmd run d d1 h ends = rw (h, send_lock d, ends, send_unlock d1) refl

  -- Where fork fails, `run_game` reports an error and leaves the lock of the wrapper set, with
  -- override 1 and the mode "cache" set, though no game runs.
  run_game-locked :
      (argv : List Bytes) (cmd : Bytes) (d : Daemon reals k)
      → game_command reals k host argv ≡ some cmd
      → run_game reals k host argv none (online d) ≡ (online (locked d), err_io)
  unfolding run_game with_command play
  run_game-locked argv cmd d h = rw (h, send_lock d) refl
