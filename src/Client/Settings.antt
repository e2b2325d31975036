-- ===== src/Client/Settings.antt =====
-- The commands of src/daemon/config.c that set a value or ask for a reload, and those of
-- src/daemon/cppc.c. `argv` is the list of the arguments, the name of the program first.
use x3d_toggle_main.Prelude.{
  Bool, Option, none, some, List, ◌∷◌, ◌++◌, if◌then◌else◌, ◌||◌, get_elem?, ℤ, pos, Bytes, codes,
  cstr,
}
use x3d_toggle_main.Libc.Strings.Equal.{is_zero, str_eq}
use x3d_toggle_main.Libc.Bounded.{printf_s}
use x3d_toggle_main.Errors.{err_success, err_syntax}
use x3d_toggle_main.Kernel.{Kernel}
use x3d_toggle_main.Config.Load.{Reals}
use x3d_toggle_main.Socket.State.{Host}
use x3d_toggle_main.Client.{World, err_ipc, socket_send, config_write, cppc_cmd}

module _ (reals : Reals) (k : Kernel) (host : Host reals k) where
  abbrev W : Type 0
  W = World reals k

  -- the payload and the write, where `argc` is at least 3
  unfoldable pub set_command : Bytes → Option Bytes → W → W × ℤ
  set_command key none w = (w, pos 1)
  set_command key (some v) w =
      config_write reals k host (printf_s 128 (codes "SET_CONFIG " ++ (key ++ (b' ' ∷ cstr v)))) key
        v w

  unfoldable pub cli_config_interval : List Bytes → W → W × ℤ
  cli_config_interval argv w = set_command (codes "POLLING_INTERVAL") (get_elem? argv 2) w

  unfoldable pub cli_config_threshold : List Bytes → W → W × ℤ
  cli_config_threshold argv w = set_command (codes "LOAD_THRESHOLD") (get_elem? argv 2) w

  unfoldable pub cli_config_fallback : List Bytes → W → W × ℤ
  cli_config_fallback argv w = set_command (codes "FALLBACK_PROFILE") (get_elem? argv 2) w

  unfoldable pub cli_config_detection : List Bytes → W → W × ℤ
  cli_config_detection argv w = set_command (codes "DETECTION_LEVEL") (get_elem? argv 2) w

  unfoldable pub cli_config_polling : W → W × ℤ
  cli_config_polling w =
      let level =
        config_write reals k host (codes "SET_CONFIG DETECTION_LEVEL 0") (codes "DETECTION_LEVEL")
          (codes "0") w in
      config_write reals k host (codes "SET_CONFIG EBPF_ENABLE 0") (codes "EBPF_ENABLE") (codes "0")
        level.0

  unfoldable pub cli_config_ebpf : W → W × ℤ
  cli_config_ebpf w =
      let level =
        config_write reals k host (codes "SET_CONFIG DETECTION_LEVEL 1") (codes "DETECTION_LEVEL")
          (codes "1") w in
      config_write reals k host (codes "SET_CONFIG EBPF_ENABLE 1") (codes "EBPF_ENABLE") (codes "1")
        level.0

  unfoldable pub cli_config_sync : W → W × ℤ
  cli_config_sync w =
      let sent = socket_send reals k host (codes "CONFIG_SYNC") w in
      (sent.0, if is_zero sent.1 then err_success else err_ipc)

  -- the four actions
  unfoldable pub is_action : Bytes → Bool
  is_action action =
      (str_eq action (codes "add") || str_eq action (codes "save"))
      || (str_eq action (codes "load") || str_eq action (codes "delete"))

  unfoldable pub profile_command : Option Bytes → Option Bytes → W → W × ℤ
  profile_command none name w = (w, err_syntax)
  profile_command (some action) none w = (w, err_syntax)
  profile_command (some action) (some name) w =
      let sent =
        socket_send reals k host
          (printf_s 256 (codes "PROFILE " ++ (cstr action ++ (b' ' ∷ cstr name)))) w in
      if is_action action
      then (sent.0, if is_zero sent.1 then err_success else err_ipc)
      else (w, err_syntax)

  unfoldable pub cli_config_profile : List Bytes → W → W × ℤ
  cli_config_profile argv w = profile_command (get_elem? argv 2) (get_elem? argv 3) w

  unfoldable pub cli_cppc_perf : W → W × ℤ
  cli_cppc_perf w = cppc_cmd reals k host (codes "SET_EPP performance") w

  unfoldable pub cli_cppc_bal : W → W × ℤ
  cli_cppc_bal w = cppc_cmd reals k host (codes "SET_EPP balance_performance") w

  unfoldable pub cli_cppc_eco : W → W × ℤ
  cli_cppc_eco w = cppc_cmd reals k host (codes "SET_EPP balance_power") w

  unfoldable pub cli_cppc_power : W → W × ℤ
  cli_cppc_power w = cppc_cmd reals k host (codes "SET_EPP power") w

  -- a request with one argument, or with two
  unfoldable pub one_argument : Bytes → Option Bytes → W → W × ℤ
  one_argument name none w = (w, err_syntax)
  one_argument name (some arg) w = cppc_cmd reals k host (printf_s 128 (name ++ cstr arg)) w

  unfoldable pub two_arguments : Bytes → Option Bytes → Option Bytes → W → W × ℤ
  two_arguments name none second w = (w, err_syntax)
  two_arguments name (some first) none w = (w, err_syntax)
  two_arguments name (some first) (some second) w =
      cppc_cmd reals k host (printf_s 128 (name ++ (cstr first ++ (b' ' ∷ cstr second)))) w

  unfoldable pub cli_cppc_epp : List Bytes → W → W × ℤ
  cli_cppc_epp argv w = two_arguments (codes "SET_EPP_CCD ") (get_elem? argv 2) (get_elem? argv 3) w

  unfoldable pub cli_cppc_raw : List Bytes → W → W × ℤ
  cli_cppc_raw argv w = two_arguments (codes "SET_RAW ") (get_elem? argv 3) (get_elem? argv 2) w

  unfoldable pub cli_cppc_mode : List Bytes → W → W × ℤ
  cli_cppc_mode argv w = one_argument (codes "SET_PSTATE ") (get_elem? argv 2) w

  unfoldable pub cli_cppc_target : List Bytes → W → W × ℤ
  cli_cppc_target argv w = one_argument (codes "SET_CPPC ") (get_elem? argv 2) w

  unfoldable pub cli_cppc_governor : List Bytes → W → W × ℤ
  cli_cppc_governor argv w = one_argument (codes "SET_GOVERNOR ") (get_elem? argv 2) w

  unfoldable pub cli_cppc_prefcore : List Bytes → W → W × ℤ
  cli_cppc_prefcore argv w = one_argument (codes "SET_PREFCORE ") (get_elem? argv 2) w
