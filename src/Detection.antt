-- ===== src/Detection.antt =====
-- How the daemon notices that a game runs: src/daemon/steam.h, `scan_pid` and `detect_game` of
-- src/daemon/polling/polling.c, and the counter of src/daemon/bpf/bpf-user.c.
pub mod Environ
pub mod Counter
pub mod Events
pub mod Chosen
use x3d_toggle_main.Prelude.{
  ℕ, zero, suc, ◌+◌, ◌-◌, Bool, true, false, not, ◌&&◌, ◌||◌, Option, none, some, List, [], ◌∷◌,
  ◌++◌, map, ◌==◌, ltb, leb, if◌then◌else◌, ℤ, pos, Bytes, codes, cstr, deref, take, drop, length,
}
use x3d_toggle_main.Libc.Strings.{strlen, strncmp}
use x3d_toggle_main.Libc.Strings.Equal.{is_zero, starts_with}
use x3d_toggle_main.Libc.Bounded.{printf_s, printf_d}
use x3d_toggle_main.Errors.{is_positive}
use x3d_toggle_main.Kernel.{Kernel}
use x3d_toggle_main.Games.Load.{contains, games_match}

abbrev pub infra_names : List Bytes
infra_names =
    codes "steam"
    ∷ codes "steamwebhelper"
    ∷ codes "steamboot"
    ∷ codes "steam_osx"
    ∷ codes "reaper"
    ∷ codes "pressure-vessel"
    ∷ codes "SteamChildMonit"
    ∷ []

-- `strncmp(comm, name, 15) == 0` for one of the names
unfoldable pub is_one_of : Bytes → List Bytes → Bool
is_one_of comm [] = false
is_one_of comm (name ∷ names) = is_zero (strncmp (some comm) (some name) 15) || is_one_of comm names

unfoldable pub steam_is_infra_comm : Bytes → Bool
steam_is_infra_comm comm = not (deref comm == 0) && is_one_of comm infra_names

unfoldable pub is_game_engine_comm : Bytes → Bool
is_game_engine_comm comm =
    not (deref comm == 0) && is_zero (strncmp (some comm) (some (codes "GameThread")) 10)

-- one entry of the environment: SteamAppId with a value that is neither empty nor 0
unfoldable pub is_app_entry : Bytes → Bool
is_app_entry entry =
    let appid = drop 11 entry in
    starts_with entry (codes "SteamAppId=")
    && (not (deref appid == 0) && not (deref appid == b'0' && deref (drop 1 appid) == 0))

-- `while (i < n)`, on the bytes from `buf + i` on; `fuel` bounds the rounds.
unfoldable pub scan_environ : ℕ → Bytes → Bool
scan_environ zero rest = false
scan_environ (suc fuel) [] = false
scan_environ (suc fuel) (c ∷ rest) =
    let entry = c ∷ rest in
    let later = scan_environ fuel (drop (strlen (some entry) + 1) entry) in
    is_app_entry entry || later

-- behind the read of the environment
unfoldable pub environ_read : Option Bytes → Bool
environ_read none = false
environ_read (some buf) = scan_environ 4095 buf

-- `comm` without the end of its line
unfoldable pub comm_line : Bytes → Bytes
comm_line [] = []
comm_line (c ∷ []) = if c == b'\n' then [] else c ∷ []
comm_line (c ∷ rest) = c ∷ comm_line rest

-- what the name of the process decides: `none` where it decides nothing
unfoldable pub comm_read : Option Bytes → Option Bool
comm_read none = none
comm_read (some []) = none
comm_read (some (c ∷ rest)) =
    let comm = comm_line (c ∷ rest) in
    if is_game_engine_comm comm
    then some true
    else if steam_is_infra_comm comm
    then some false
    else none

unfoldable pub decided : Option Bool → Bool → Bool
decided none other = other
decided (some answer) other = answer

-- the NULs between the arguments as blanks
unfoldable pub spaced : Bytes → Bytes
spaced buf = map (λ c. if c == 0 then b' ' else c) buf

unfoldable pub cmdline_read : List Bytes → Option Bytes → Bool
cmdline_read games none = false
cmdline_read games (some []) = false
cmdline_read games (some (c ∷ rest)) = games_match games (spaced (c ∷ rest))

unfoldable pub maps_hit : List Bytes → Bool
maps_hit [] = false
maps_hit (chunk ∷ chunks) = contains chunk (codes "libgamemodeauto.so") || maps_hit chunks

unfoldable pub maps_read : Option (List Bytes) → Bool
maps_read none = false
maps_read (some chunks) = maps_hit chunks

-- the path of a file of a process
unfoldable pub proc_path : ℕ → Bytes → Bytes → Bytes
proc_path size pid_str name = printf_s size (codes "/proc/" ++ cstr pid_str ++ name)

module _ (k : Kernel) where
  unfoldable pub scan_pid_steam : Bytes → k.State → Bool
  scan_pid_steam pid_str s =
      let comm = k.read_file (proc_path 64 pid_str (codes "/comm")) 31 s in
      let environ = k.read_file (proc_path 64 pid_str (codes "/environ")) 4095 s in
      not (deref pid_str == 0) && decided (comm_read comm) (environ_read environ)

  unfoldable pub scan_pid_steam_by_pid : ℤ → k.State → Bool
  scan_pid_steam_by_pid pid s = is_positive pid && scan_pid_steam (printf_d 16 pid) s

  -- `games` are the names that `games_load` has loaded.
  unfoldable pub scan_pid : List Bytes → Bytes → k.State → Bool
  scan_pid games pid_str s =
      let cmdline = k.read_file (proc_path 256 pid_str (codes "/cmdline")) 16383 s in
      let maps = k.read_chunks (proc_path 256 pid_str (codes "/maps")) 16383 s in
      (ltb 0 (length games) && cmdline_read games cmdline)
      || (maps_read maps || scan_pid_steam pid_str s)

  -- the names of /proc that start with a digit
  unfoldable pub scan_names : List Bytes → List Bytes → k.State → Bool
  scan_names games [] s = false
  scan_names games (name ∷ names) s =
      (leb b'0' (deref name) && leb (deref name) b'9' && scan_pid games name s)
      || scan_names games names s

  unfoldable pub dir_read : List Bytes → Option (List Bytes) → k.State → Bool
  dir_read games none s = false
  dir_read games (some names) s = scan_names games names s

  unfoldable pub detect_game : List Bytes → k.State → Bool
  detect_game games s = dir_read games (k.list_dir (codes "/proc") s) s
