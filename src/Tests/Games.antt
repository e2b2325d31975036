-- ===== src/Tests/Games.antt =====
-- The detection of games at concrete processes.
use x3d_toggle_main.Prelude.{
  ◌≡◌, ◌↔◌, List, refl, true, false, none, some, [], ◌∷◌, ◌++◌, ltb, Bytes, codes, cstr, pos,
  if◌then◌else◌, arith,
}
use x3d_toggle_main.Libc.Bounded.{printf_s}
use x3d_toggle_main.Kernel.{Kernel, IsNode, side_name}
use x3d_toggle_main.Kernel.Memory.{bytes_eq, Files, x3d_kernel, memory_read, x3d_write}
use x3d_toggle_main.Hardware.Modes.{Machine}
use x3d_toggle_main.Polling.{Settings}
use x3d_toggle_main.Detection.{comm_read, proc_path, scan_pid_steam}
use x3d_toggle_main.Detection.Environ.{AnyApp, entries_from, scan_pid_steam-AnyApp}
use x3d_toggle_main.Detection.Counter.{ProcessEvent, bpf_game}
use x3d_toggle_main.Detection.Events.{
  Input, process, message, counter_after, changes_of, games_after, bpf_game-games_after,
}

-- a kernel with one process, 42, that Steam has started
abbrev game_kernel : Kernel
game_kernel = record {
  State = Files;
  read_file = x3d_kernel.read_file;
  read_fails = x3d_kernel.read_fails;
  write_file = x3d_kernel.write_file;
  access = x3d_kernel.access;
  unlink = x3d_kernel.unlink;
  geteuid = x3d_kernel.geteuid;
  spawn = x3d_kernel.spawn;
  system = x3d_kernel.system;
  mkdir = x3d_kernel.mkdir;
  read_chunks = x3d_kernel.read_chunks;
  list_dir = λ path s. some (codes "self" ∷ (codes "42" ∷ []));
}

abbrev x3d_node : Bytes
x3d_node = codes "/n"

abbrev game-IsNode : IsNode game_kernel x3d_node
game-IsNode = record {
  Shows = λ a s. s x3d_node ≡ some (side_name a ++ b'\n' ∷ []);
  read_shows = λ a n s. memory_read x3d_node (side_name a ++ b'\n' ∷ []) n s;
  write_shows = λ a s. x3d_write x3d_node a s;
}

abbrev app_environ : Bytes
app_environ = codes "HOME=/" ++ 0 ∷ codes "SteamAppId=730" ++ 0 ∷ []

abbrev game_files : Files
game_files path =
    if bytes_eq path x3d_node
    then some (codes "frequency\n")
    else if bytes_eq path (codes "/proc/42/environ")
    then some app_environ
    else none

abbrev game_machine : Machine game_kernel
game_machine = record { kernel = game_files; x3d_path_cache = some x3d_node }

unnamed :
    comm_read (game_kernel.read_file (proc_path 64 (codes "42") (codes "/comm")) 31 game_files)
    ≡ none
unfolding comm_read proc_path printf_s cstr
unnamed = refl

environ_42 :
    game_kernel.read_file (proc_path 64 (codes "42") (codes "/environ")) 4095 game_files
    ≡ some app_environ
unfolding proc_path printf_s cstr
environ_42 = refl

scan_pid_steam-AnyApp_example :
    (scan_pid_steam game_kernel (codes "42") game_files ≡ true)
    ↔ AnyApp (entries_from true app_environ)
scan_pid_steam-AnyApp_example =
    scan_pid_steam-AnyApp game_kernel (codes "42") app_environ game_files refl unnamed environ_42
      (omega arith)

abbrev default_settings : Settings
default_settings = record {
  active_override = 0;
  wrapper_lock = pos 0;
  daemon_state = codes "default";
}

abbrev started : ProcessEvent
started = record { pid = pos 8; comm = codes "ls"; is_exit = false }

-- the list of games
abbrev listed : List Bytes
listed = codes "hl2" ∷ []

-- "hl2" in the list begins, "ls" begins and ends, and an unknown message comes
abbrev history : List (Input game_kernel listed)
history =
    message (codes "Unknown") (some (pos 8))
    ∷ process game_files (record started { is_exit = true })
    ∷ process game_files started
    ∷ process game_files (record started { comm = codes "hl2" })
    ∷ []

bpf_game-games_after_example :
    (counter_after game_kernel listed history
      ≡ pos (games_after (changes_of game_kernel listed history)))
    × (bpf_game (counter_after game_kernel listed history)
        ≡ ltb 0 (games_after (changes_of game_kernel listed history)))
bpf_game-games_after_example = bpf_game-games_after game_kernel listed history (omega arith)
