-- ===== src/Socket/Modes/Toggle.antt =====
-- TOGGLE on the node of the driver.
use x3d_toggle_main.Prelude.{ℕ, ◌≡◌, refl, ◌∷◌, [], Bytes, codes, some, if◌then◌else◌}
use x3d_toggle_main.Libc.Strings.{strcmp}
use x3d_toggle_main.Libc.Strings.Equal.{str_eq}
use x3d_toggle_main.Kernel.{Kernel, IsNode, Side, cache_side, frequency_side, side_name}
use x3d_toggle_main.Config.Load.{Reals}
use x3d_toggle_main.Hardware.Modes.{Machine, find_path, cli_set_mode}
use x3d_toggle_main.Hardware.Modes.Node.{mode-shown, cli_set_mode-shows}
use x3d_toggle_main.Socket.State.{Host, Daemon, replied}
use x3d_toggle_main.Socket.Modes.{toggle_target, handle_toggle}

-- the override of each mode
abbrev pub side_override : Side → ℕ
side_override cache_side = 1
side_override frequency_side = 2

abbrev pub other : Side → Side
other cache_side = frequency_side
other frequency_side = cache_side

toggle_target-other : (a : Side) → toggle_target (side_name a) ≡ side_name (other a)
unfolding toggle_target str_eq strcmp
toggle_target-other cache_side = refl
toggle_target-other frequency_side = refl

override-other :
    (a : Side)
    → (if str_eq (side_name (other a)) (codes "cache") then 1 else 2) ≡ side_override (other a)
unfolding str_eq strcmp
override-other cache_side = refl
override-other frequency_side = refl

-- Where the node of the driver is found, TOGGLE answers "OK", leaves the node showing the other of
-- "cache" and "frequency", which it shows on a line of its own, and sets the override to 1 for "cache"
-- and to 2 for "frequency".
pub handle_toggle-other :
    (reals : Reals) (k : Kernel) (host : Host reals k) (path : Bytes) (node : IsNode k path)
    (d : Daemon reals k) (a : Side)
    → find_path k d.machine ≡ some path
    → node.Shows a d.machine.kernel
    → (d1 : Daemon reals k) × (handle_toggle reals k host d ≡ replied (codes "OK" ∷ []) d1)
      × node.Shows (other a) d1.machine.kernel
      × (d1.active_override ≡ side_override (other a))
unfolding handle_toggle find_path
handle_toggle-other reals k host path node d a e shown =
    let m1 : Machine k = record d.machine { x3d_path_cache = some path } in
    let found = mode-shown k path node host.stale a d.machine e shown in
    let set = cli_set_mode-shows k path node (other a) m1 refl in
    let d1 : Daemon reals k = record d {
      machine = (cli_set_mode k (side_name (other a)) m1).0;
      active_override = side_override (other a);
    } in
    (d1, rw (found, toggle_target-other a, override-other a) refl, set.0, refl)
