-- ===== src/Client.antt =====
-- The commands that talk to the daemon: `socket_send` and `socket_probe` of src/worker.c, and the
-- commands of src/daemon/modes.c, src/daemon/daemon.c and src/run.c that are built on it. A request
-- is answered by `socket_handle` of the daemon. What the commands print is left out.
pub mod Requests
pub mod Settings
pub mod Service
pub mod Watchlist
pub mod Saved
pub mod Refused
pub mod Rounds
pub mod Presets
pub mod Wrapper
use x3d_toggle_main.Prelude.{
  ℕ, ◌-◌, Bool, true, false, not, ◌&&◌, ◌||◌, Option, none, some, List, [], ◌∷◌, ◌++◌, ◌==◌,
  if◌then◌else◌, ℤ, pos, negsuc, Bytes, codes, cstr, take, length,
}
use x3d_toggle_main.Libc.Strings.Equal.{is_zero, str_eq, starts_with}
use x3d_toggle_main.Libc.Bounded.{printf_s}
use x3d_toggle_main.Errors.{err_success, err_hw, err_io, err_syntax}
use x3d_toggle_main.Kernel.{Kernel}
use x3d_toggle_main.Config.Load.{Reals}
use x3d_toggle_main.Config.Update.{config_update}
use x3d_toggle_main.Hardware.Modes.{Machine, cli_set_mode, cli_set_dual, cli_set_swap}
use x3d_toggle_main.Socket.State.{Host, Daemon, Outcome, replied, fault, set_kernel}
use x3d_toggle_main.Socket.Handle.{socket_handle}

abbrev pub err_ipc : ℤ
err_ipc = negsuc 3

-- Whether a daemon listens on the socket, and the state of the kernel where none does.
pub data World (reals : Reals) (k : Kernel) : Type 0 where
  online : Daemon reals k → World reals k
  offline : k.State → World reals k

abbrev pub joined : List Bytes → Bytes
joined [] = []
joined (text ∷ texts) = text ++ joined texts

-- `bytes_read > 0` and `strncmp(buf, "OK", 2) == 0`, of a read of 15 bytes
unfoldable pub is_ok : List Bytes → Bool
is_ok texts = not (length (joined texts) == 0) && starts_with (take 15 (joined texts)) (codes "OK")

module _ (reals : Reals) (k : Kernel) (host : Host reals k) where
  unfoldable pub world_kernel : World reals k → k.State
  world_kernel (online d) = d.machine.kernel
  world_kernel (offline s) = s

  unfoldable pub set_world_kernel : k.State → World reals k → World reals k
  set_world_kernel s (online d) = online (set_kernel s d)
  set_world_kernel s (offline _) = offline s

  -- Behind `socket_handle`. A fault ends the daemon before it has changed a file, and the client
  -- reads the end of the connection.
  unfoldable pub answered : Daemon reals k → Outcome reals k → World reals k × ℤ
  answered d (replied texts d1) = (online d1, if is_ok texts then err_success else err_ipc)
  answered d fault = (offline d.machine.kernel, err_ipc)

  -- `socket_send(cmd, NULL, 0)`, where the calls on the connection itself do not fail
  unfoldable pub socket_send : Bytes → World reals k → World reals k × ℤ
  socket_send cmd (offline s) = (offline s, err_ipc)
  socket_send cmd (online d) =
      answered d (socket_handle reals k host (some (take 511 (cstr cmd))) d)

  -- `socket_send(cmd, response, n)`, where one read takes what the daemon sends: what the buffer
  -- holds, `none` for ERR_IPC
  unfoldable pub queried : Daemon reals k → ℕ → Outcome reals k → World reals k × Option Bytes
  queried d n (replied texts d1) =
      (online d1, elim (joined texts) [ [] ↦ none | c ∷ rest ↦ some (take (n - 1) (c ∷ rest)) ])
  queried d n fault = (offline d.machine.kernel, none)

  unfoldable pub socket_query : Bytes → ℕ → World reals k → World reals k × Option Bytes
  socket_query cmd n (offline s) = (offline s, none)
  socket_query cmd n (online d) =
      queried d n (socket_handle reals k host (some (take 511 (cstr cmd))) d)

  unfoldable pub socket_probe : World reals k → World reals k × ℤ
  socket_probe w = socket_send (codes "PING") w

  -- the names that `ccd_change` sends to the daemon
  unfoldable pub is_preset : Bytes → Bool
  is_preset mode =
      str_eq mode (codes "cache")
      || str_eq mode (codes "frequency")
      || str_eq mode (codes "dual")
      || str_eq mode (codes "swap")

  -- `strcmp(mode, "dual") == 0` and so on
  unfoldable pub set_directly : Bytes → Machine k → Machine k × ℤ
  set_directly mode m =
      if str_eq mode (codes "dual")
      then cli_set_dual k m
      else if str_eq mode (codes "swap")
      then cli_set_swap k m
      else cli_set_mode k mode m

  -- behind the requests; the command has not looked for the node before
  unfoldable pub without_daemon : Bytes → World reals k → World reals k × ℤ
  without_daemon mode w =
      let set = set_directly mode (record { kernel = world_kernel w; x3d_path_cache = none }) in
      (set_world_kernel set.0.kernel w, if is_zero set.1 then err_success else err_hw)

  unfoldable pub ccd_change : Bytes → World reals k → World reals k × ℤ
  ccd_change mode w =
      let manual = (socket_send (codes "SET_DAEMON manual") w).0 in
      let asked = socket_send (printf_s 64 (codes "SET_MODE " ++ mode)) manual in
      let ipc_res = if is_preset mode then asked else (w, err_ipc) in
      if is_zero ipc_res.1 then (ipc_res.0, err_success) else without_daemon mode ipc_res.0

  unfoldable pub cli_mode_reset : World reals k → World reals k × ℤ
  cli_mode_reset w =
      let sent = socket_send (codes "SET_MODE reset") w in
      if is_zero sent.1 then (sent.0, err_success) else ccd_change (codes "reset") sent.0

  -- the three requests of `cli_daemon_wake` and `cli_mode_default`, and whether all succeed
  unfoldable pub send_default : World reals k → World reals k × Bool
  send_default w =
      let r1 = socket_send (codes "CONFIG_SYNC") w in
      let r2 = socket_send (codes "SET_DAEMON default") r1.0 in
      let r3 = socket_send (codes "SET_MODE frequency") r2.0 in
      (r3.0, is_zero r1.1 && is_zero r2.1 && is_zero r3.1)

  unfoldable pub cli_daemon_wake : World reals k → World reals k × ℤ
  cli_daemon_wake w = let sent = send_default w in (sent.0, if sent.1 then pos 0 else pos 1)

  unfoldable pub cli_daemon_sleep : World reals k → World reals k × ℤ
  cli_daemon_sleep w =
      let sent = socket_send (codes "SET_DAEMON manual") w in
      (sent.0, if is_zero sent.1 then pos 0 else pos 1)

  unfoldable pub update_setting : Bytes → Bytes → World reals k → World reals k
  update_setting key val w =
      set_world_kernel (config_update k host.conf_path key val (world_kernel w)) w

  -- `macro` gives the texts of the CONFIG_ macros.
  unfoldable pub cli_mode_default : (Bytes → Bytes) → World reals k → World reals k × ℤ
  cli_mode_default macro w =
      let w1 = update_setting (codes "DAEMON_STATE") (codes "default") w in
      let w2 = update_setting (codes "POLLING_INTERVAL") (macro (codes "POLLING_INTERVAL")) w1 in
      let w3 = update_setting (codes "LOAD_THRESHOLD") (macro (codes "LOAD_THRESHOLD")) w2 in
      let w4 = update_setting (codes "DETECTION_LEVEL") (macro (codes "DETECTION_LEVEL")) w3 in
      let w5 = update_setting (codes "EBPF_ENABLE") (macro (codes "EBPF_ENABLE")) w4 in
      ((send_default w5).0, pos 0)

  -- `config_write` with a key and a value
  unfoldable pub config_write : Bytes → Bytes → Bytes → World reals k → World reals k × ℤ
  config_write ipc_command config_key config_value w =
      let sent = socket_send ipc_command w in
      if is_zero sent.1
      then (sent.0, pos 0)
      else (update_setting config_key config_value sent.0, pos 0)

  unfoldable pub cppc_cmd : Bytes → World reals k → World reals k × ℤ
  cppc_cmd cmd_string w =
      let sent = socket_send cmd_string w in
      (sent.0, if is_zero sent.1 then err_success else err_ipc)

  -- `argv[start_idx]`
  unfoldable pub game_command : List Bytes → Option Bytes
  game_command [] = none
  game_command (program ∷ []) = none
  game_command (program ∷ (first ∷ [])) = if str_eq first (codes "run") then none else some first
  game_command (program ∷ (first ∷ (second ∷ rest))) =
      if str_eq first (codes "run") then some second else some first

  -- The part behind the tests on the arguments. `game` is what happens from the fork until
  -- `waitpid` returns, to the daemon and its machine too; it is `none` where fork fails.
  unfoldable pub play : Option (World reals k → World reals k) → World reals k → World reals k × ℤ
  play none w = ((socket_send (codes "SET_WRAPPER 1") w).0, err_io)
  play (some run) w = (
    (socket_send (codes "SET_WRAPPER 0") (run (socket_send (codes "SET_WRAPPER 1") w).0)).0,
    err_success,
  )

  unfoldable pub with_command :
      Option Bytes → Option (World reals k → World reals k) → World reals k → World reals k × ℤ
  with_command none game w = (w, err_syntax)
  with_command (some cmd) game w = play game w

  unfoldable pub run_game :
      List Bytes → Option (World reals k → World reals k) → World reals k → World reals k × ℤ
  run_game argv game w = with_command (game_command argv) game w
