-- ===== src/Detection/Events.antt =====
-- The counter of games over a history of events.
use x3d_toggle_main.Prelude.{
  ℕ, zero, suc, ◌+◌, ◌-◌, ◌≤◌, ◌<◌, ◌%◌, ◌^◌, ◌≡◌, refl, ap, ◌∙◌, Bool, true, false, not, ◌&&◌,
  ◌||◌, Option, none, some, List, [], ◌∷◌, ltb, if◌then◌else◌, ℤ, pos, int_mod, to_int,
  to_int-small, Bytes, codes, length, arith,
}
use x3d_toggle_main.Libc.Strings.Equal.{str_eq}
use x3d_toggle_main.Kernel.{Kernel}
use x3d_toggle_main.Games.Load.{games_match}
use x3d_toggle_main.Detection.{is_game_engine_comm, scan_pid_steam_by_pid}
use x3d_toggle_main.Detection.Counter.{
  ProcessEvent, one_more, minus_one, one_less, handle_event, on_gamemode_signal, bpf_game,
}

-- What an event means for the number of games.
pub data Change : Type 0 where
  begins ends keeps : Change

-- The number of games behind the changes, the latest of which comes first: an end counts for one of
-- the games that are still there, if there is any.
abbrev pub games_after : List Change → ℕ
games_after [] = 0
games_after (begins ∷ past) = games_after past + 1
games_after (ends ∷ past) = games_after past - 1
games_after (keeps ∷ past) = games_after past

games_after-length : (past : List Change) → games_after past ≤ length past
games_after-length [] = omega arith
games_after-length (begins ∷ past) = omega (arith, games_after-length past)
games_after-length (ends ∷ past) = omega (arith, games_after-length past)
games_after-length (keeps ∷ past) = omega (arith, games_after-length past)

abbrev change_counter : Change → ℤ → ℤ
change_counter begins z = one_more z
change_counter ends z = one_less z
change_counter keeps z = z

-- As an `int`, the counter is that number as long as it fits.
change_counter_lem :
    (c : Change) (past : List Change)
    → length (c ∷ past) < 2 ^ 31
    → change_counter c (pos (games_after past)) ≡ pos (games_after (c ∷ past))
unfolding one_more one_less minus_one bpf_game
change_counter_lem begins past h =
    let n = games_after past in
    let below : n + 1 < 2 ^ 31 = omega (arith, h, games_after-length past) in
    let whole : (n + 1) % int_mod ≡ n + 1 = omega (arith, below) in
    ap to_int whole ∙ to_int-small (n + 1) below
change_counter_lem ends past h = lowered (games_after past)
  where
    lowered : (n : ℕ) → change_counter ends (pos n) ≡ pos (n - 1)
    lowered zero = refl
    lowered (suc n) =
        let above : ltb 0 (suc n) ≡ true = ground arith in
        let left : suc n - 1 ≡ n = omega arith in rw (above, left) refl
change_counter_lem keeps past h = refl

module _ (k : Kernel) (games : List Bytes) where
  -- an event of the eBPF program, with the state of the kernel then, or a message of GameMode
  pub data Input : Type 0 where
    process : k.State → ProcessEvent → Input
    message : Bytes → Option ℤ → Input

  abbrev pub handle_input : Input → ℤ → ℤ
  handle_input (process s e) active = handle_event k games s e active
  handle_input (message member pid) active = on_gamemode_signal member pid active

  -- the counter behind inputs, the latest of which comes first
  abbrev pub counter_after : List Input → ℤ
  counter_after [] = pos 0
  counter_after (i ∷ past) = handle_input i (counter_after past)

  -- A process that has the name of a game in the list or of an engine, or that Steam has started.
  abbrev pub is_game : k.State → ProcessEvent → Bool
  is_game s e =
      games_match games e.comm || (is_game_engine_comm e.comm || scan_pid_steam_by_pid k e.pid s)

  -- The end of any process counts, its start only if it is a game; and GameMode says so itself.
  abbrev pub change_of : Input → Change
  change_of (process s e) = if e.is_exit then ends else if is_game s e then begins else keeps
  change_of (message member none) = keeps
  change_of (message member (some pid)) =
      if str_eq member (codes "GameRegistered")
      then begins
      else if str_eq member (codes "GameUnregistered")
      then ends
      else keeps

  abbrev pub changes_of : List Input → List Change
  changes_of [] = []
  changes_of (i ∷ past) = change_of i ∷ changes_of past

  process_lem :
      (listed exit detected : Bool) (z : ℤ)
      → (if listed
          then if exit then one_less z else one_more z
          else if not exit && detected
          then one_more z
          else if exit && bpf_game z
          then minus_one z
          else z)
        ≡ change_counter (if exit then ends else if listed || detected then begins else keeps) z
  unfolding one_less
  process_lem true true detected z = refl
  process_lem true false detected z = refl
  process_lem false true detected z = refl
  process_lem false false true z = refl
  process_lem false false false z = refl

  message_lem :
      (registered unregistered : Bool) (z : ℤ)
      → (if registered then one_more z else if unregistered then one_less z else z)
        ≡ change_counter (if registered then begins else if unregistered then ends else keeps) z
  message_lem true unregistered z = refl
  message_lem false true z = refl
  message_lem false false z = refl

  handle_input_lem : (i : Input) (z : ℤ) → handle_input i z ≡ change_counter (change_of i) z
  unfolding handle_event on_gamemode_signal
  handle_input_lem (process s e) z =
      process_lem (games_match games e.comm) e.is_exit
        (is_game_engine_comm e.comm || scan_pid_steam_by_pid k e.pid s) z
  handle_input_lem (message member none) z = refl
  handle_input_lem (message member (some pid)) z =
      message_lem (str_eq member (codes "GameRegistered"))
        (str_eq member (codes "GameUnregistered")) z

  length-changes_of : (past : List Input) → length (changes_of past) ≡ length past
  length-changes_of [] = refl
  length-changes_of (i ∷ past) = ap suc (length-changes_of past)

  -- Behind any fewer than 2^31 events and messages in any order, the counter, which is an `int`, is
  -- the number of games by the changes: a process counts as a begin where its name is in the list of
  -- games or that of an engine or Steam has started it, and the exit of any process whatever as an
  -- end, as the messages of GameMode do; an end without a game does not count. A game is reported if
  -- and only if that number is not 0.
  pub bpf_game-games_after :
      (past : List Input)
      → length past < 2 ^ 31
      → (counter_after past ≡ pos (games_after (changes_of past)))
        × (bpf_game (counter_after past) ≡ ltb 0 (games_after (changes_of past)))
  unfolding bpf_game
  bpf_game-games_after past h = let e = counted past h in (e, ap bpf_game e)
    where
      counted :
          (past' : List Input)
          → length past' < 2 ^ 31
          → counter_after past' ≡ pos (games_after (changes_of past'))
      counted [] h' = refl
      counted (i ∷ past') h' =
          ap (handle_input i) (counted past' (omega (arith, h')))
          ∙ handle_input_lem i (pos (games_after (changes_of past')))
          ∙ change_counter_lem (change_of i) (changes_of past')
              (omega (arith, h', length-changes_of past'))
