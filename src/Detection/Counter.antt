-- ===== src/Detection/Counter.antt =====
-- src/daemon/bpf/bpf-user.c: the counter of games, as the events of the eBPF program and the signals
-- of GameMode change it. It is an `int`. The listener and the ring buffer, which call the two
-- handlers, belong to sd-bus and libbpf.
use x3d_toggle_main.Prelude.{
  zero, suc, ◌+◌, ◌%◌, Bool, false, not, ◌&&◌, ◌||◌, Option, none, some, List, ltb, if◌then◌else◌,
  ℤ, pos, negsuc, int_mod, to_int, Bytes, codes,
}
use x3d_toggle_main.Libc.Strings.Equal.{str_eq}
use x3d_toggle_main.Kernel.{Kernel}
use x3d_toggle_main.Games.Load.{games_match}
use x3d_toggle_main.Detection.{is_game_engine_comm, scan_pid_steam_by_pid}

pub record ProcessEvent : Type 0 where
  pub pid : ℤ
  pub comm : Bytes
  pub is_exit : Bool

-- `active_games++`
unfoldable pub one_more : ℤ → ℤ
one_more (pos n) = to_int ((n + 1) % int_mod)
one_more (negsuc zero) = pos 0
one_more (negsuc (suc n)) = negsuc n

-- `active_games--`, above the least `int`
unfoldable pub minus_one : ℤ → ℤ
minus_one (pos zero) = negsuc 0
minus_one (pos (suc n)) = pos n
minus_one (negsuc n) = negsuc (suc n)

-- `active_games > 0`
unfoldable pub bpf_game : ℤ → Bool
bpf_game (pos n) = ltb 0 n
bpf_game (negsuc n) = false

-- `if (active_games > 0) active_games--`
unfoldable pub one_less : ℤ → ℤ
one_less active_games = if bpf_game active_games then minus_one active_games else active_games

-- The counter behind the event; `s` is the state of the kernel when it is handled.
unfoldable pub handle_event : (k : Kernel) → List Bytes → k.State → ProcessEvent → ℤ → ℤ
handle_event k games s e active_games =
    if games_match games e.comm
    then (if e.is_exit then one_less active_games else one_more active_games)
    else if not e.is_exit && (is_game_engine_comm e.comm || scan_pid_steam_by_pid k e.pid s)
    then one_more active_games
    else if e.is_exit && bpf_game active_games
    then minus_one active_games
    else active_games

-- `member` of a message, and the number that it carries, if it carries one
unfoldable pub on_gamemode_signal : Bytes → Option ℤ → ℤ → ℤ
on_gamemode_signal member none active_games = active_games
on_gamemode_signal member (some pid) active_games =
    if str_eq member (codes "GameRegistered")
    then one_more active_games
    else if str_eq member (codes "GameUnregistered")
    then one_less active_games
    else active_games
