-- ===== src/Socket/Modes.antt =====
-- src/socket.c: the requests MODE, DAEMON_INFO, TOGGLE, SET_MODE and SET_WRAPPER.
pub mod Toggle
use x3d_toggle_main.Prelude.{
  ℕ, ◌-◌, Bool, true, false, not, ◌||◌, Option, none, some, [], ◌∷◌, ◌++◌, ◌==◌, if◌then◌else◌,
  String, Bytes, codes, cstr, take, ℤ, pos,
}
use x3d_toggle_main.Libc.Strings.{strstr}
use x3d_toggle_main.Libc.Strings.Equal.{is_zero, str_eq}
use x3d_toggle_main.Libc.Numbers.{atoi}
use x3d_toggle_main.Libc.Bounded.{printf_d}
use x3d_toggle_main.Kernel.{Kernel}
use x3d_toggle_main.Config.Fields.{daemon_state, refresh_interval, affinity_mask}
use x3d_toggle_main.Config.Load.{Reals, Value, int, text, real}
use x3d_toggle_main.Hardware.Modes.{Machine, mode, cli_set_mode, cli_set_dual, cli_set_swap}
use x3d_toggle_main.Hardware.Apply.{cli_mode_apply, part_cache, part_freq, part_dual}
use x3d_toggle_main.Socket.State.{Host, Daemon, Outcome, answer, answer_if}

-- `strstr(val, "…")` as a test
unfoldable pub has_text : Bytes → String → Bool
has_text val name = elim (strstr (some val) (some (codes name))) [ none ↦ false | some _ ↦ true ]

-- What SET_MODE takes its value for: the tests in their order.
pub data ModeRequest : Type 0 where
  automatic cache frequency dual swap unknown : ModeRequest

unfoldable pub read_request : Bytes → ModeRequest
read_request val =
    if has_text val "auto" || has_text val "default" || has_text val "reset"
    then automatic
    else if has_text val "cache"
    then cache
    else if has_text val "frequency"
    then frequency
    else if has_text val "dual"
    then dual
    else if has_text val "swap"
    then swap
    else unknown

-- the mode that TOGGLE chooses for `current`
unfoldable pub toggle_target : Bytes → Bytes
toggle_target current = if str_eq current (codes "cache") then codes "frequency" else codes "cache"

module _ (reals : Reals) (k : Kernel) (host : Host reals k) where
  abbrev D : Type 0
  D = Daemon reals k

  abbrev Out : Type 0
  Out = Outcome reals k

  unfoldable pub handle_mode : D → Out
  handle_mode d =
      let (m, (current, _)) = mode k 32 host.stale d.machine in
      answer (cstr current) (record d { machine = m })

  -- The fields that "%s" and "%.1f" are given are of these types.
  unfoldable pub show_field : Value reals.Real → Bytes
  show_field (int n) = printf_d 128 n
  show_field (text t) = cstr t
  show_field (real r) = host.print_real r

  -- "%llx" is not known to `printf_sn`, which writes it without the percent sign.
  unfoldable pub handle_info : D → Out
  unfolding show_field
  handle_info d =
      let info =
        codes "STATE="
        ++ (show_field (d.cfg.field daemon_state)
            ++ (codes "|OVERRIDE="
                ++ (printf_d 128 (pos d.active_override)
                    ++ (codes "|BPF_ACTIVE="
                        ++ (printf_d 128 (if d.bpf_active then pos 1 else pos 0)
                            ++ (codes "|REFRESH_INTERVAL="
                                ++ (show_field (d.cfg.field refresh_interval)
                                    ++ (codes "|MASK="
                                        ++ (show_field (d.cfg.field affinity_mask)
                                            ++ codes "|CAPS=llx"))))))))) in
      answer (take 511 info) d

  unfoldable pub handle_toggle : D → Out
  handle_toggle d =
      let (m, (current, _)) = mode k 32 host.stale d.machine in
      let target = toggle_target current in
      answer (codes "OK") (record d {
        machine = (cli_set_mode k target m).0;
        active_override = if str_eq target (codes "cache") then 1 else 2;
      })

  -- `cli_set_mode`, then `cli_mode_apply`
  unfoldable pub enter_mode : Bytes → ℕ → ℕ → D → D
  enter_mode target override part d = record d {
    machine = (cli_mode_apply k part (cli_set_mode k target d.machine).0).0;
    active_override = override;
  }

  -- what SET_MODE does for each value, and whether it matched
  unfoldable pub apply_request : ModeRequest → D → D × Bool
  apply_request automatic d = (record d { active_override = 0 }, true)
  apply_request cache d = (enter_mode (codes "cache") 1 part_cache d, true)
  apply_request frequency d = (enter_mode (codes "frequency") 2 part_freq d, true)
  apply_request dual d = (enter_mode (codes "dual") 3 part_dual d, true)
  apply_request swap d = (enter_mode (codes "swap") 4 part_dual d, true)
  apply_request unknown d = (d, false)

  unfoldable pub handle_set_mode : Bytes → D → Out
  handle_set_mode val d =
      let (d1, matched) = apply_request (read_request val) d in answer_if matched d1

  unfoldable pub handle_set_wrapper : Bytes → D → Out
  handle_set_wrapper val d =
      let enable = atoi val in
      let target = if is_zero enable then codes "frequency" else codes "cache" in
      answer (codes "OK") (record d {
        machine = (cli_set_mode k target d.machine).0;
        active_override = if is_zero enable then 0 else 1;
        wrapper_lock = enable;
      })
