-- ===== src/Polling/Swap.antt =====
-- What `polling_run` does to the mode of the cache, on the node of the driver.
use x3d_toggle_main.Prelude.{
  ℕ, zero, suc, ◌≡◌, refl, Bool, true, false, ◌&&◌, ◌||◌, ◌==◌, some, ltb, arith, Bytes, codes,
  cstr,
}
use x3d_toggle_main.Libc.Strings.{strcmp, strlen}
use x3d_toggle_main.Libc.Strings.Equal.{is_zero, str_eq}
use x3d_toggle_main.Libc.Bounded.{printf_s}
use x3d_toggle_main.Kernel.{Kernel, IsNode, Side, cache_side, frequency_side, side_name}
use x3d_toggle_main.Hardware.Modes.{Machine, find_path}
use x3d_toggle_main.Hardware.Modes.Node.{mode-shown, cli_set_mode-shows}
use x3d_toggle_main.Polling.{Settings, choose_target, apply_target, polling_run}

printf_s-mode : (a : Side) → printf_s 32 (side_name a) ≡ side_name a
unfolding printf_s cstr
printf_s-mode cache_side = refl
printf_s-mode frequency_side = refl

-- What the automatic mode should set: "cache" for override 1, "frequency" for override 2, and
-- otherwise "cache" while a game runs.
abbrev pub wanted : ℕ → Bool → Side
wanted (suc zero) game = cache_side
wanted (suc (suc zero)) game = frequency_side
wanted _ true = cache_side
wanted _ false = frequency_side

choose_target-wanted : (o : ℕ) (game : Bool) → choose_target o game ≡ side_name (wanted o game)
unfolding choose_target
choose_target-wanted zero true = refl
choose_target-wanted zero false = refl
choose_target-wanted (suc zero) game = refl
choose_target-wanted (suc (suc zero)) game = refl
choose_target-wanted (suc (suc (suc o))) true =
    let one : (suc (suc (suc o)) == 1) ≡ false = ground arith in
    let two : (suc (suc (suc o)) == 2) ≡ false = ground arith in rw (one, two) refl
choose_target-wanted (suc (suc (suc o))) false =
    let one : (suc (suc (suc o)) == 1) ≡ false = ground arith in
    let two : (suc (suc (suc o)) == 2) ≡ false = ground arith in rw (one, two) refl

module _ (k : Kernel) (path : Bytes) (node : IsNode k path) where
  -- the machine shows the mode, at the path that is used
  abbrev pub Shown : Side → Machine k → Type 0
  Shown a m = node.Shows a m.kernel × (find_path k m ≡ some path)

  apply_target-Shown :
      (a b : Side) (m : Machine k)
      → Shown a m
      → Shown b (apply_target k true (side_name a) (side_name b) m)
  unfolding apply_target str_eq strcmp strlen
  apply_target-Shown cache_side cache_side m s = s
  apply_target-Shown frequency_side frequency_side m s = s
  apply_target-Shown cache_side frequency_side m s =
      cli_set_mode-shows k path node frequency_side m s.1
  apply_target-Shown frequency_side cache_side m s = cli_set_mode-shows k path node cache_side m s.1

  cached : Machine k → Machine k
  cached m = record m { x3d_path_cache = some path }

  cached-Shown : (a : Side) (m : Machine k) → Shown a m → Shown a (cached m)
  unfolding cached find_path
  cached-Shown a m s = (s.0, refl)

  module _ (g : Settings) (unlocked : is_zero g.wrapper_lock ≡ true) (eg pg : Bool) (buffer : Bytes)
      (current : Side) (m : Machine k) (shown : Shown current m) where
    -- Without the lock of the wrapper, when the override is at least 3 or the state is not
    -- "default", and when `target` and the node of the driver hold "cache" or "frequency": one round
    -- sets the mode that `target` holds, and leaves the mode that was found in `target`, without the
    -- newline with which the node shows it. Each round swaps the two.
    pub polling_run-swap :
        (target : Side)
        (kept : (ltb g.active_override 3 && str_eq g.daemon_state (codes "default")) ≡ false)
        → (let r = polling_run k g eg pg buffer (side_name target) m in
            Shown target r.0 × (r.1.1 ≡ side_name current))
    unfolding polling_run cached
    polling_run-swap target kept =
        rw (mode-shown k path node buffer current m shown.1 shown.0, unlocked, kept)
          (
            apply_target-Shown current target (cached m) (cached-Shown current m shown),
            printf_s-mode current,
          )

    pub polling_run-chosen :
        (target : Bytes)
        (automatic : (ltb g.active_override 3 && str_eq g.daemon_state (codes "default")) ≡ true)
        → Shown (wanted g.active_override (eg || pg)) (polling_run k g eg pg buffer target m).0
    unfolding polling_run cached
    polling_run-chosen target automatic =
        rw
          (
            mode-shown k path node buffer current m shown.1 shown.0,
            unlocked,
            automatic,
            choose_target-wanted g.active_override (eg || pg),
          )
          (apply_target-Shown current (wanted g.active_override (eg || pg)) (cached m)
            (cached-Shown current m shown))
