-- ===== src/Client/Presets.antt =====
-- The commands `cache`, `frequency`, `dual` and `swap`, with a daemon that listens and without one.
use x3d_toggle_main.Prelude.{
  ℕ, ◌≡◌, refl, ap, ◌∙◌, Bool, true, false, ◌&&◌, some, none, ◌++◌, ltb, Bytes, codes, cstr,
}
use x3d_toggle_main.Libc.Strings.{strcmp, strncmp, strlen, strstr}
use x3d_toggle_main.Libc.Strings.Equal.{is_zero, str_eq, starts_with}
use x3d_toggle_main.Libc.Bounded.{printf_s}
use x3d_toggle_main.Errors.{err_success}
use x3d_toggle_main.Kernel.{Kernel, IsNode, Side, cache_side, frequency_side, side_name}
use x3d_toggle_main.Config.Fields.{daemon_state}
use x3d_toggle_main.Config.Load.{Reals}
use x3d_toggle_main.Hardware.Modes.{Machine, targets, first_readable, find_path, cli_set_mode}
use x3d_toggle_main.Hardware.Modes.Node.{cli_set_mode-shows, cli_set_mode-succeeds}
use x3d_toggle_main.Hardware.Apply.{part_freq, part_cache, part_dual}
use x3d_toggle_main.Polling.{polling_run}
use x3d_toggle_main.Polling.Swap.{Shown, polling_run-swap}
use x3d_toggle_main.Socket.State.{Host, Daemon}
use x3d_toggle_main.Socket.Commands.{prefix, set_mode}
use x3d_toggle_main.Socket.Handle.{serve}
use x3d_toggle_main.Socket.Modes.{
  handle_set_mode, enter_mode, read_request, apply_request, has_text,
}
use x3d_toggle_main.Client.{
  online, offline, answered, is_ok, socket_send, world_kernel, set_world_kernel, set_directly,
  without_daemon, is_preset, ccd_change,
}
use x3d_toggle_main.Client.Requests.{in_state, send_manual, send_command}
use x3d_toggle_main.Client.Rounds.{text_of, settings_of, daemon_after, in_state_lem}

pub data Preset : Type 0 where
  cache frequency dual swap : Preset

abbrev pub preset_name : Preset → Bytes
preset_name cache = codes "cache"
preset_name frequency = codes "frequency"
preset_name dual = codes "dual"
preset_name swap = codes "swap"

-- the override that belongs to it
abbrev pub preset_override : Preset → ℕ
preset_override cache = 1
preset_override frequency = 2
preset_override dual = 3
preset_override swap = 4

abbrev pub preset_part : Preset → ℕ
preset_part cache = part_cache
preset_part frequency = part_freq
preset_part dual = part_dual
preset_part swap = part_dual

module _ (reals : Reals) (k : Kernel) (host : Host reals k) where
  send_preset :
      (p : Preset) (d : Daemon reals k)
      → socket_send reals k host (printf_s 64 (codes "SET_MODE " ++ preset_name p)) (online d) ≡ (
        online (enter_mode reals k host (preset_name p) (preset_override p) (preset_part p) d),
        err_success,
      )
  unfolding prefix printf_s cstr serve handle_set_mode read_request apply_request has_text strstr
      str_eq strcmp answered is_ok starts_with strncmp strlen
  send_preset cache d = send_command reals k host d set_mode (codes "cache") _ refl refl refl
  send_preset frequency d =
      send_command reals k host d set_mode (codes "frequency") _ refl refl refl
  send_preset dual d = send_command reals k host d set_mode (codes "dual") _ refl refl refl
  send_preset swap d = send_command reals k host d set_mode (codes "swap") _ refl refl refl

  is_preset_name : (p : Preset) → is_preset reals k host (preset_name p) ≡ true
  unfolding is_preset str_eq strcmp
  is_preset_name cache = refl
  is_preset_name frequency = refl
  is_preset_name dual = refl
  is_preset_name swap = refl

  pub change_lem :
      (p : Preset) (d : Daemon reals k)
      → ccd_change reals k host (preset_name p) (online d) ≡ (
        online (
            enter_mode reals k host
              (preset_name p)
              (preset_override p)
              (preset_part p)
              (in_state reals k host (codes "manual") d)),
        err_success,
      )
  unfolding ccd_change
  change_lem p d =
      rw
        (
          send_manual reals k host d,
          send_preset p (in_state reals k host (codes "manual") d),
          is_preset_name p,
        )
        refl

  -- The daemon behind one of the commands.
  abbrev pub changed : Preset → Daemon reals k → Daemon reals k
  changed p d = daemon_after d (ccd_change reals k host (preset_name p) (online d)).0

  -- With a daemon that listens, each of the four commands succeeds; the daemon then is in the state
  -- "manual", with the override of the command and the lock of the wrapper as before.
  pub ccd_change-online :
      (p : Preset) (d : Daemon reals k)
      → ((ccd_change reals k host (preset_name p) (online d)).1 ≡ err_success)
        × ((changed p d).active_override ≡ preset_override p)
        × (text_of ((changed p d).cfg.field daemon_state) ≡ codes "manual")
        × ((changed p d).wrapper_lock ≡ d.wrapper_lock)
  unfolding enter_mode printf_s cstr
  ccd_change-online p d =
      let kept = in_state_lem reals k host (codes "manual") d in
      rw (change_lem p d) (refl, refl, ap text_of kept.0, kept.1)

  -- With a daemon that listens, and without the lock of the wrapper: whichever of the four commands
  -- was given, and where the node of the driver shows a mode behind it and the buffer `target` of the
  -- main loop holds "cache" or "frequency" from before, the next round of polling sets the mode that
  -- `target` holds, and keeps the mode that it found for the round after it.
  pub ccd_change-undone :
      (path : Bytes) (node : IsNode k path) (p : Preset) (d : Daemon reals k) (eg pg : Bool)
      (buffer : Bytes) (current target : Side)
      → is_zero d.wrapper_lock ≡ true
      → Shown k path node current (changed p d).machine
      → let r =
          polling_run k
            (settings_of (changed p d))
            eg
            pg
            buffer
            (side_name target)
            (changed p d).machine in
        Shown k path node target r.0 × (r.1.1 ≡ side_name current)
  unfolding str_eq strcmp
  ccd_change-undone path node p d eg pg buffer current target unlocked shown =
      let set = ccd_change-online p d in
      let free : is_zero (changed p d).wrapper_lock ≡ true = ap is_zero set.3 ∙ unlocked in
      let kept : (ltb (changed p d).active_override 3
            && str_eq (text_of ((changed p d).cfg.field daemon_state)) (codes "default"))
          ≡ false =
        rw set.2 (and_false (ltb (changed p d).active_override 3)) in
      polling_run-swap k path node (settings_of (changed p d)) free eg pg buffer current
        (changed p d).machine shown target kept
    where
      and_false : (b : Bool) → (b && false) ≡ false
      and_false true = refl
      and_false false = refl

module _ (reals : Reals) (k : Kernel) (host : Host reals k) (path : Bytes)
    (node : IsNode k path) where
  -- the machine of a command, which has not looked for the node yet
  abbrev new_machine : k.State → Machine k
  new_machine s = record { kernel = s; x3d_path_cache = none }

  find_new :
      (s : k.State)
      → first_readable k targets s ≡ some path
      → find_path k (new_machine s) ≡ some path
  unfolding find_path
  find_new s found = found

  abbrev preset_of : Side → Preset
  preset_of cache_side = cache
  preset_of frequency_side = frequency

  set_directly_lem :
      (a : Side) (m : Machine k)
      → set_directly reals k host (preset_name (preset_of a)) m ≡ cli_set_mode k (side_name a) m
  unfolding set_directly str_eq strcmp
  set_directly_lem cache_side m = refl
  set_directly_lem frequency_side m = refl

  -- With no daemon, where the first of the known paths that can be read is the node of the driver:
  -- the commands `cache` and `frequency` succeed, and the node shows the mode.
  ccd_change-offline :
      (a : Side) (s : k.State)
      → first_readable k targets s ≡ some path
      → ((ccd_change reals k host (preset_name (preset_of a)) (offline s)).1 ≡ err_success)
        × node.Shows a (
            world_kernel reals k host
              (ccd_change reals k host (preset_name (preset_of a)) (offline s)).0)
  unfolding ccd_change socket_send without_daemon world_kernel set_world_kernel
  ccd_change-offline a s found =
      let m = new_machine s in
      let done = cli_set_mode-succeeds k path node a m (find_new s found) in
      let shows = cli_set_mode-shows k path node a m (find_new s found) in
      rw (is_preset_name reals k host (preset_of a), set_directly_lem a m, done) (refl, shows.0)
