-- ===== src/Client/Watchlist.antt =====
-- src/daemon/config.c: `cli_config_add` and `cli_config_remove`, with the branches of `config_write`
-- that they use. `games_path` is CONFIG_PATH, and `memory` says whether `realloc` succeeds.
use x3d_toggle_main.Prelude.{
  ◌≤◌, ◌≡◌, refl, Bool, none, some, List, ◌∷◌, ◌++◌, if◌then◌else◌, pos, Bytes, codes, cstr,
  cstr_self, drop, get_elem?, length, All, All-append, take-all, arith,
}
use x3d_toggle_main.Libc.Strings.{strncmp, strlen}
use x3d_toggle_main.Libc.Strings.Equal.{is_zero, starts_with}
use x3d_toggle_main.Libc.Bounded.{printf_s}
use x3d_toggle_main.Kernel.{Kernel}
use x3d_toggle_main.Config.Load.{Reals}
use x3d_toggle_main.Socket.State.{Host}
use x3d_toggle_main.Socket.Commands.{prefix, commands, find_command}
use x3d_toggle_main.Socket.Dispatch.{Plain, is_plain-All}
use x3d_toggle_main.Games.Edit.{Edit, done, overrun, game_add, game_remove}
use x3d_toggle_main.Client.{World, socket_send, world_kernel, set_world_kernel}
use x3d_toggle_main.Client.Requests.{Plain-NoNul}
use x3d_toggle_main.Client.Refused.{send-refused}

module _ (reals : Reals) (k : Kernel) (host : Host reals k) (games_path : Bytes)
    (memory : Bool) where
  abbrev W : Type 0
  W = World reals k

  -- `config_write` returns 0 whatever becomes of the file.
  unfoldable pub edited : Edit k.State → W → Edit W
  edited overrun w = overrun
  edited (done res s) w = done (pos 0) (set_world_kernel reals k host s w)

  -- `config_write(argc, argv, ipc_command, NULL, NULL, …)`
  unfoldable pub config_write_game : Bytes → W → Edit W
  config_write_game ipc_command w =
      let sent = socket_send reals k host ipc_command w in
      let s = world_kernel reals k host sent.0 in
      if is_zero sent.1
      then done (pos 0) sent.0
      else if starts_with ipc_command (codes "GAME_ADD ")
      then edited (game_add k games_path memory (drop 9 ipc_command) s) sent.0
      else if starts_with ipc_command (codes "GAME_REMOVE ")
      then edited (game_remove k games_path (drop 12 ipc_command) s) sent.0
      else done (pos 0) sent.0

  unfoldable pub cli_config_add : List Bytes → W → Edit W
  cli_config_add argv w = elim (get_elem? argv 2) [
    | none ↦ done (pos 1) w
    | some game ↦ config_write_game (printf_s 256 (codes "GAME_ADD " ++ cstr game)) w
  ]

  unfoldable pub cli_config_remove : List Bytes → W → Edit W
  cli_config_remove argv w = elim (get_elem? argv 2) [
    | none ↦ done (pos 1) w
    | some game ↦ config_write_game (printf_s 256 (codes "GAME_REMOVE " ++ cstr game)) w
  ]

  unknown_add : (rest : Bytes) → find_command (codes "GAME_ADD " ++ rest) commands ≡ none
  unfolding find_command commands prefix starts_with strncmp strlen
  unknown_add rest = refl

  unknown_remove : (rest : Bytes) → find_command (codes "GAME_REMOVE " ++ rest) commands ≡ none
  unfolding find_command commands prefix starts_with strncmp strlen
  unknown_remove rest = refl

  sent_add :
      (game : Bytes) (w : W)
      → All Plain game
      → length game ≤ 243
      → config_write_game (codes "GAME_ADD " ++ game) w
        ≡ edited (game_add k games_path memory game (world_kernel reals k host w)) w
  unfolding config_write_game starts_with strncmp strlen
  sent_add game w h fits =
      let plain =
        All-append Plain (codes "GAME_ADD ") game (is_plain-All (codes "GAME_ADD ") refl) h in
      rw
        (send-refused reals k host (codes "GAME_ADD " ++ game) w plain (omega (arith, fits))
          (unknown_add game))
        refl

  sent_remove :
      (game : Bytes) (w : W)
      → All Plain game
      → length game ≤ 243
      → config_write_game (codes "GAME_REMOVE " ++ game) w
        ≡ edited (game_remove k games_path game (world_kernel reals k host w)) w
  unfolding config_write_game starts_with strncmp strlen
  sent_remove game w h fits =
      let plain =
        All-append Plain (codes "GAME_REMOVE ") game (is_plain-All (codes "GAME_REMOVE ") refl) h in
      rw
        (send-refused reals k host (codes "GAME_REMOVE " ++ game) w plain (omega (arith, fits))
          (unknown_remove game))
        refl

  whole :
      (name game : Bytes)
      → All Plain name
      → All Plain game
      → length (name ++ game) ≤ 255
      → printf_s 256 (name ++ cstr game) ≡ name ++ game
  unfolding printf_s
  whole name game hn h fits =
      let plain = Plain-NoNul (name ++ game) (All-append Plain name game hn h) in
      rw (cstr_self game (Plain-NoNul game h), cstr_self (name ++ game) plain)
        (take-all 255 (name ++ game) fits)

  -- For the name of a game of at most 243 bytes that can stand in a request: whether a daemon listens
  -- or not, cli_config_add edits the file as game_add does, cli_config_remove as game_remove does,
  -- both return 0 whatever those return, and nothing else of a daemon is changed.
  pub cli_config_add-game_add :
      (program name game : Bytes) (more : List Bytes) (w : W)
      → All Plain game
      → length game ≤ 243
      → (cli_config_add (program ∷ (name ∷ (game ∷ more))) w
          ≡ edited (game_add k games_path memory game (world_kernel reals k host w)) w)
        × (cli_config_remove (program ∷ (name ∷ (game ∷ more))) w
            ≡ edited (game_remove k games_path game (world_kernel reals k host w)) w)
  unfolding cli_config_add cli_config_remove
  cli_config_add-game_add program name game more w h fits =
      let add =
        whole (codes "GAME_ADD ") game (is_plain-All (codes "GAME_ADD ") refl) h
          (omega (arith, fits)) in
      let remove =
        whole (codes "GAME_REMOVE ") game (is_plain-All (codes "GAME_REMOVE ") refl) h
          (omega (arith, fits)) in
      (rw add (sent_add game w h fits), rw remove (sent_remove game w h fits))
