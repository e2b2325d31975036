-- ===== src/Tests/Commands.antt =====
-- The commands that talk to the daemon, at concrete states.
use x3d_toggle_main.Prelude.{◌++◌, arith}
use x3d_toggle_main.Prelude.{
  ◌≡◌, refl, true, false, none, some, [], ◌∷◌, Bytes, codes, pos, if◌then◌else◌, inl, inr, ℕ, not,
  ◌&&◌, ◌||◌, ◌==◌, Bool-cases, List,
}
use x3d_toggle_main.Libc.Strings.{strcmp}
use x3d_toggle_main.Libc.Strings.Equal.{str_eq}
use x3d_toggle_main.Errors.{err_success}
use x3d_toggle_main.Kernel.{Kernel, IsNode, Side, cache_side, frequency_side, side_name}
use x3d_toggle_main.Kernel.Memory.{
  bytes_eq, Files, x3d_kernel, memory_kernel, memory_read, x3d_write,
}
use x3d_toggle_main.Hardware.Modes.{find_path}
use x3d_toggle_main.Hardware.Modes.Node.{cli_set_mode-shows}
use x3d_toggle_main.Hardware.Apply.{cli_mode_apply, part_freq, part_cache}
use x3d_toggle_main.Polling.{polling_run}
use x3d_toggle_main.Polling.Swap.{Shown}
use x3d_toggle_main.Socket.State.{Host, Daemon, set_kernel}
use x3d_toggle_main.Socket.Modes.{enter_mode}
use x3d_toggle_main.Socket.Settings.{save, clear_override}
use x3d_toggle_main.Client.{
  World, online, offline, cli_daemon_wake, run_game, game_command, world_kernel,
}
use x3d_toggle_main.Client.Rounds.{wake_lem, woken, settings_of, cli_daemon_wake-frequency}
use x3d_toggle_main.Client.Presets.{cache, changed, change_lem, ccd_change-undone}
use x3d_toggle_main.Client.Requests.{in_state}
use x3d_toggle_main.Client.Wrapper.{locked, unlocked, run_game-unlocks}
use x3d_toggle_main.Config.Fields.{polling_interval, key_name}
use x3d_toggle_main.Config.Load.{find_field}
use x3d_toggle_main.Config.Update.{config_update}
use x3d_toggle_main.Socket.Settings.{live_fields}
use x3d_toggle_main.Socket.Dispatch.{is_plain-All}
use x3d_toggle_main.Client.{config_write, err_ipc}
use x3d_toggle_main.Client.Settings.{is_action, cli_cppc_raw, cli_config_profile}
use x3d_toggle_main.Client.Refused.{cli_cppc_raw-refused}
use x3d_toggle_main.Client.Saved.{config_write-config_update}
use x3d_toggle_main.Tests.Settings.{text_reals, build, config, host, daemon}

-- a user who is not root, so that the partitions of the cores are left alone
abbrev user_kernel : Kernel
user_kernel = record {
  State = Files;
  read_file = x3d_kernel.read_file;
  read_fails = x3d_kernel.read_fails;
  write_file = x3d_kernel.write_file;
  access = x3d_kernel.access;
  unlink = x3d_kernel.unlink;
  geteuid = λ s. 1000;
  spawn = x3d_kernel.spawn;
  system = x3d_kernel.system;
  mkdir = x3d_kernel.mkdir;
  read_chunks = x3d_kernel.read_chunks;
  list_dir = x3d_kernel.list_dir;
}

abbrev x3d_node : Bytes
x3d_node = codes "/n"

abbrev user-IsNode : IsNode user_kernel x3d_node
user-IsNode = record {
  Shows = λ a s. s x3d_node ≡ some (side_name a ++ b'\n' ∷ []);
  read_shows = λ a n s. memory_read x3d_node (side_name a ++ b'\n' ∷ []) n s;
  write_shows = λ a s. x3d_write x3d_node a s;
}

abbrev only_node : Files
only_node = λ q. if bytes_eq q x3d_node then some (codes "cache\n") else none

abbrev user_host : Host text_reals user_kernel
user_host = record {
  cores = record { total_cores = 16; ccd1_start = 8 };
  conf_path = codes "/c";
  build = build;
  ccd = λ s. none;
  bpf_init = λ s. (s, true);
  bpf_cleanup = λ s. s;
  print_real = λ r. r;
  stale = [];
}

abbrev user_daemon : Daemon text_reals user_kernel
user_daemon = record {
  machine = record { kernel = only_node; x3d_path_cache = some x3d_node };
  cfg = config;
  active_override = 0;
  active_keep = true;
  wrapper_lock = pos 0;
  bpf_active = false;
}

-- A user who is not root gets no further than the mode.
entered :
    (target : Side) (override part : ℕ) (d : Daemon text_reals user_kernel)
    → d.machine.x3d_path_cache ≡ some x3d_node
    → Shown user_kernel x3d_node user-IsNode target
        (enter_mode text_reals user_kernel user_host (side_name target) override part d).machine
unfolding enter_mode cli_mode_apply find_path
entered target override part d cached =
    cli_set_mode-shows user_kernel x3d_node user-IsNode target d.machine (rw cached refl)

in_state-cached :
    (val : Bytes) (d : Daemon text_reals user_kernel)
    → (in_state text_reals user_kernel user_host val d).machine.x3d_path_cache
      ≡ d.machine.x3d_path_cache
unfolding clear_override save set_kernel
in_state-cached val d =
    elim (Bool-cases (
      not (d.active_override == 0)
      && (str_eq val (codes "auto") || str_eq val (codes "default")))) [
        | inl e ↦ rw e refl
        | inr e ↦ rw e refl
      ]

woken-shows :
    Shown user_kernel x3d_node user-IsNode frequency_side
      (woken text_reals user_kernel user_host user_daemon).machine
woken-shows =
    rw (wake_lem text_reals user_kernel user_host user_daemon)
      (entered frequency_side 2 part_freq _ (in_state-cached (codes "default") _))

cli_daemon_wake-frequency_example :
    ((cli_daemon_wake text_reals user_kernel user_host (online user_daemon)).1 ≡ pos 0)
    × Shown user_kernel x3d_node user-IsNode frequency_side
        (polling_run user_kernel
          (settings_of (woken text_reals user_kernel user_host user_daemon))
          true
          true
          []
          []
          (woken text_reals user_kernel user_host user_daemon).machine).0
cli_daemon_wake-frequency_example =
    cli_daemon_wake-frequency text_reals user_kernel user_host x3d_node user-IsNode user_daemon true
      true [] [] frequency_side refl woken-shows

changed-shows :
    Shown user_kernel x3d_node user-IsNode cache_side
      (changed text_reals user_kernel user_host cache user_daemon).machine
changed-shows =
    rw (change_lem text_reals user_kernel user_host cache user_daemon)
      (entered cache_side 1 part_cache _ (in_state-cached (codes "manual") _))

ccd_change-undone_example :
    let d1 = changed text_reals user_kernel user_host cache user_daemon in
    let r =
      polling_run user_kernel (settings_of d1) false false [] (codes "frequency") d1.machine in
    Shown user_kernel x3d_node user-IsNode frequency_side r.0 × (r.1.1 ≡ codes "cache")
ccd_change-undone_example =
    ccd_change-undone text_reals user_kernel user_host x3d_node user-IsNode cache user_daemon false
      false [] cache_side frequency_side refl changed-shows

abbrev game_argv : List Bytes
game_argv = codes "x3d-run" ∷ (codes "run" ∷ (codes "game" ∷ []))

game-named : game_command text_reals memory_kernel host game_argv ≡ some (codes "game")
unfolding game_command str_eq strcmp
game-named = refl

-- while the game runs, the daemon is told to use both halves of the cores
abbrev meanwhile : World text_reals memory_kernel → World text_reals memory_kernel
meanwhile (online d) = online (record d { active_override = 3 })
meanwhile (offline s) = offline s

run_game-unlocks_example :
    run_game text_reals memory_kernel host game_argv (some meanwhile) (online daemon) ≡ (
      online (
          unlocked text_reals memory_kernel host
            (record (locked text_reals memory_kernel host daemon) { active_override = 3 })),
      err_success,
    )
run_game-unlocks_example =
    run_game-unlocks text_reals memory_kernel host game_argv (codes "game") meanwhile daemon
      (record (locked text_reals memory_kernel host daemon) { active_override = 3 }) game-named refl

abbrev interval_key : Bytes
interval_key = codes "POLLING_INTERVAL"

interval-found : find_field interval_key live_fields ≡ some polling_interval
unfolding find_field live_fields str_eq strcmp key_name
interval-found = refl

config_write-config_update_example :
    let r =
      config_write text_reals memory_kernel host
        (codes "SET_CONFIG " ++ (interval_key ++ (b' ' ∷ codes "500")))
        interval_key
        (codes "500")
        (online daemon) in
    (r.1 ≡ pos 0)
    × (world_kernel text_reals memory_kernel host r.0
        ≡ config_update memory_kernel host.conf_path interval_key
            (codes "500")
            daemon.machine.kernel)
unfolding world_kernel
config_write-config_update_example =
    config_write-config_update text_reals memory_kernel host interval_key (codes "500")
      polling_interval (online daemon) (is_plain-All (interval_key ++ (b' ' ∷ codes "500")) refl)
      (ground arith) (ground arith) (omega arith) interval-found refl

save-is_action : is_action text_reals memory_kernel host (codes "save") ≡ true
unfolding is_action str_eq strcmp
save-is_action = refl

cli_cppc_raw-refused_example :
    (cli_cppc_raw text_reals memory_kernel host
        (codes "x3d" ∷ (codes "cppc-raw" ∷ (codes "128" ∷ (codes "ccd0" ∷ []))))
        (online daemon)
      ≡ (online daemon, err_ipc))
    × (cli_config_profile text_reals memory_kernel host
          (codes "x3d" ∷ (codes "cppc-raw" ∷ (codes "save" ∷ (codes "quiet" ∷ []))))
          (online daemon)
        ≡ (online daemon, err_ipc))
cli_cppc_raw-refused_example =
    cli_cppc_raw-refused text_reals memory_kernel host (codes "x3d") (codes "cppc-raw")
      (codes "128") (codes "ccd0") (codes "save") (codes "quiet") [] (online daemon)
      (is_plain-All (codes "128") refl) (is_plain-All (codes "ccd0") refl)
      (is_plain-All (codes "save") refl) (is_plain-All (codes "quiet") refl) save-is_action
