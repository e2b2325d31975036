-- ===== src/Socket/Invariant.antt =====
-- What every request keeps.
pub mod Kept
pub mod Branches
use x3d_toggle_main.Prelude.{
  ◌≡◌, ◌≤◌, refl, inl, inr, Bool, true, false, not, ◌&&◌, ◌||◌, Option, none, some, [], ◌∷◌, Bytes,
  codes, ◌==◌, Bool-cases, arith, ℤ,
}
use x3d_toggle_main.Libc.Strings.Equal.{str_eq}
use x3d_toggle_main.Libc.Sysctl.{sysctl_write}
use x3d_toggle_main.Kernel.{Kernel}
use x3d_toggle_main.Config.Fields.{Field}
use x3d_toggle_main.Config.Load.{Reals, find_field}
use x3d_toggle_main.Socket.State.{Host, Daemon, Outcome, replied, fault, set_kernel}
use x3d_toggle_main.Socket.Commands.{
  Command, ping, mode_query, daemon_info, get_config, toggle, set_mode, get_topology,
  set_affinity_config, set_cppc, set_boost, set_park, set_unpark, set_tdp, set_epp, set_epp_ccd,
  set_pstate, set_governor, set_prefcore, set_daemon, set_config, set_wrapper, daemon_disable,
  config_sync, games_list, advanced_get, advanced_set,
}
use x3d_toggle_main.Socket.Number.{Number, faulted, refused, number}
use x3d_toggle_main.Socket.Modes.{
  ModeRequest, automatic, unknown, read_request, apply_request, enter_mode, handle_mode,
  handle_info, handle_toggle, handle_set_mode, handle_set_wrapper,
}
use x3d_toggle_main.Socket.Tuning.{
  with_number, with_split, handle_get_topology, handle_set_affinity, handle_set_cppc,
  handle_set_boost, handle_set_park, handle_set_unpark, handle_set_tdp, handle_set_epp,
  handle_set_epp_ccd, handle_set_pstate, handle_set_governor, handle_set_prefcore,
}
use x3d_toggle_main.Socket.Settings.{
  save, live_fields, is_ebpf, switch_bpf, set_live, set_found, clear_override, reset_script,
  after_reset, handle_get_config, handle_set_config, handle_set_daemon, handle_config_sync,
}
use x3d_toggle_main.Socket.Advanced.{
  Node, node_path, nodes, find_node, answer_node, set_node, set_found_node, handle_advanced_get,
  handle_advanced_set,
}
use x3d_toggle_main.Socket.Handle.{serve}
use x3d_toggle_main.Socket.Invariant.Kept.{
  Allowed, Leads, takes_number, sets_override, is_wrapper, is_disable, Keeps, Same, InRange,
  with_number-Leads, with_split-Leads, same, weaken, Same-Keeps, range-Keeps,
}
use x3d_toggle_main.Socket.Invariant.Branches.{
  park-Same, unpark-Same, switch_bpf-Same, set_live-Same, set_found-Same, set_config-Same,
  answer_node-Same, set_node-Same, apply_request-InRange, toggle-InRange, clear_override-InRange,
  after_reset-InRange, set_daemon-InRange, wrapper-InRange,
}

module _ (reals : Reals) (k : Kernel) (host : Host reals k) where
  abbrev D : Type 0
  D = Daemon reals k

  -- Every command other than SET_CPPC, SET_PARK, SET_UNPARK, SET_TDP and SET_EPP_CCD sends exactly one
  -- reply, and each of these five does so or ends in a fault of the process. After the reply, an
  -- override of at most 4 is still at most 4; only TOGGLE, SET_MODE, SET_DAEMON and SET_WRAPPER have
  -- changed the override, and only SET_WRAPPER the lock of the wrapper; and the flag of the main loop
  -- is cleared by DAEMON_DISABLE and kept by every other command.
  pub serve-Keeps :
      (c : Command) (arg : Bytes) (d : D)
      → Leads reals k host
          (takes_number reals k host c)
          (Keeps reals k host c d)
          (serve reals k host c arg d)
  unfolding serve handle_mode handle_info handle_get_topology handle_set_affinity handle_set_cppc
      handle_set_boost handle_set_tdp handle_set_epp handle_set_epp_ccd handle_set_pstate
      handle_set_governor handle_set_prefcore handle_get_config handle_config_sync
      handle_advanced_get handle_advanced_set handle_set_mode set_kernel
  serve-Keeps ping arg d =
      Same-Keeps reals k host ping d (serve reals k host ping arg d) refl (same reals k host d)
  serve-Keeps mode_query arg d =
      Same-Keeps reals k host mode_query d (serve reals k host mode_query arg d) refl
        (refl, refl, refl)
  serve-Keeps daemon_info arg d =
      Same-Keeps reals k host daemon_info d (serve reals k host daemon_info arg d) refl
        (same reals k host d)
  serve-Keeps get_config arg d =
      Same-Keeps reals k host get_config d (serve reals k host get_config arg d) refl
        (same reals k host d)
  serve-Keeps toggle arg d =
      range-Keeps reals k host toggle d (serve reals k host toggle arg d) refl refl
        (toggle-InRange reals k host d)
  serve-Keeps set_mode arg d =
      range-Keeps reals k host set_mode d (serve reals k host set_mode arg d) refl refl
        (apply_request-InRange reals k host (read_request arg) d)
  serve-Keeps get_topology arg d =
      Same-Keeps reals k host get_topology d (serve reals k host get_topology arg d) refl
        (same reals k host d)
  serve-Keeps set_affinity_config arg d =
      Same-Keeps reals k host set_affinity_config d (serve reals k host set_affinity_config arg d)
        refl
        (with_split-Leads reals k host false (Same reals k host d) _ d _ (same reals k host d)
          (λ l r. (refl, refl, refl)))
  serve-Keeps set_cppc arg d =
      Same-Keeps reals k host set_cppc d (serve reals k host set_cppc arg d) refl (
        with_number-Leads reals k host (Same reals k host d) _ d _ (same reals k host d)
          (λ z. (refl, refl, refl)))
  serve-Keeps set_boost arg d =
      Same-Keeps reals k host set_boost d (serve reals k host set_boost arg d) refl
        (refl, refl, refl)
  serve-Keeps set_park arg d =
      Same-Keeps reals k host set_park d (serve reals k host set_park arg d) refl
        (park-Same reals k host arg d)
  serve-Keeps set_unpark arg d =
      Same-Keeps reals k host set_unpark d (serve reals k host set_unpark arg d) refl
        (unpark-Same reals k host arg d)
  serve-Keeps set_tdp arg d =
      Same-Keeps reals k host set_tdp d (serve reals k host set_tdp arg d) refl (
        with_number-Leads reals k host (Same reals k host d) _ d _ (same reals k host d)
          (λ z. (refl, refl, refl)))
  serve-Keeps set_epp arg d =
      Same-Keeps reals k host set_epp d (serve reals k host set_epp arg d) refl (refl, refl, refl)
  serve-Keeps set_epp_ccd arg d =
      Same-Keeps reals k host set_epp_ccd d (serve reals k host set_epp_ccd arg d) refl (
        with_split-Leads reals k host true (Same reals k host d) _ d _ (same reals k host d) (λ l r.
          with_number-Leads reals k host (Same reals k host d) _ d _ (same reals k host d)
            (λ z. (refl, refl, refl))))
  serve-Keeps set_pstate arg d =
      Same-Keeps reals k host set_pstate d (serve reals k host set_pstate arg d) refl
        (refl, refl, refl)
  serve-Keeps set_governor arg d =
      Same-Keeps reals k host set_governor d (serve reals k host set_governor arg d) refl
        (refl, refl, refl)
  serve-Keeps set_prefcore arg d =
      Same-Keeps reals k host set_prefcore d (serve reals k host set_prefcore arg d) refl
        (refl, refl, refl)
  serve-Keeps set_daemon arg d =
      range-Keeps reals k host set_daemon d (serve reals k host set_daemon arg d) refl refl
        (set_daemon-InRange reals k host arg d)
  serve-Keeps set_config arg d =
      Same-Keeps reals k host set_config d (serve reals k host set_config arg d) refl
        (set_config-Same reals k host arg d)
  serve-Keeps set_wrapper arg d =
      weaken reals k host false _ (Keeps reals k host set_wrapper d)
        (handle_set_wrapper reals k host arg d)
        (λ d1 r. (λ _. r.0, λ n. cc n, λ n. cc n, ground (arith, r.1)))
        (wrapper-InRange reals k host arg d)
  serve-Keeps daemon_disable arg d = (λ h. h, λ _. refl, λ _. refl, ground arith)
  serve-Keeps config_sync arg d =
      Same-Keeps reals k host config_sync d (serve reals k host config_sync arg d) refl
        (refl, refl, refl)
  serve-Keeps games_list arg d =
      Same-Keeps reals k host games_list d (serve reals k host games_list arg d) refl
        (same reals k host d)
  serve-Keeps advanced_get arg d =
      Same-Keeps reals k host advanced_get d (serve reals k host advanced_get arg d) refl
        (answer_node-Same reals k host _ d)
  serve-Keeps advanced_set arg d =
      Same-Keeps reals k host advanced_set d (serve reals k host advanced_set arg d) refl (
        with_split-Leads reals k host false (Same reals k host d) _ d _ (same reals k host d)
          (λ key val. set_node-Same reals k host (find_node key nodes) val d))
