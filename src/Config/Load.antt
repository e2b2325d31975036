-- ===== src/Config/Load.antt =====
-- src/daemon/config.c: `config_load`, `config_probe_capabilities` and `config_get`. The `double`
-- fields are of a type `Real` with the conversions that the code uses; the CONFIG_ macros of the
-- generated build/config.h are the parameter `build`.
pub mod Find
pub mod Assign
pub mod Others
use x3d_toggle_main.Prelude.{
  ℕ, ◌+◌, ◌-◌, ◌*◌, Bool, true, false, not, ◌&&◌, ◌||◌, Option, none, some, List, [], ◌∷◌, ◌++◌,
  ◌==◌, if◌then◌else◌, String, Bytes, codes, cstr, deref, take, drop, length, ℤ, pos,
}
use x3d_toggle_main.Libc.Strings.{strchr}
use x3d_toggle_main.Libc.Strings.Equal.{is_zero, str_eq}
use x3d_toggle_main.Libc.Numbers.{atoi}
use x3d_toggle_main.Libc.Bounded.{printf_s, printf_d}
use x3d_toggle_main.Lines.{split_lines}
use x3d_toggle_main.Kernel.{Kernel, exists}
use x3d_toggle_main.Config.Fields.{
  Field, key_name, Kind, int_kind, real_kind, flag_kind, text_kind, kind, load_fields,
  polling_interval, refresh_interval, dev_enable, affinity_level, affinity_mask, affinity_freq_mask,
  load_threshold, detection_level, ebpf_enable, debug_enable, daemon_state, fallback_profile,
  server_enabled, server_address, server_port, server_ssh, lint_clang_diagnostic,
  lint_clang_bugprone, lint_clang_modernize, lint_clang_readability, lint_clang_performance,
  lint_clang_portability, lint_clang_analyzer, lint_cppcheck_all, lint_cppcheck_warning,
  lint_cppcheck_style, lint_cppcheck_performance, lint_cppcheck_portability,
  lint_cppcheck_information, lint_cppcheck_unused, lint_valgrind_mode, lint_valgrind_kinds,
  lint_valgrind_origins,
}

-- `strchr(ln, '=')` splits a line that is neither empty nor a comment.
unfoldable pub parse_line : Bytes → Option (Bytes × Bytes)
parse_line ln =
    if not (deref ln == b'#') && not (deref ln == 0)
    then elim (strchr (some ln) b'=') [
      | none ↦ none
      | some val ↦ some (take (length ln - length val) ln, drop 1 val)
    ]
    else none

-- The chain of `strcmp(ln, "…") == 0`.
unfoldable pub find_field : Bytes → List Field → Option Field
find_field key [] = none
find_field key (f ∷ fs) = if str_eq key (key_name f) then some f else find_field key fs

pub data Value (Real : Type 0) : Type 0 where
  int : ℤ → Value Real
  text : Bytes → Value Real
  real : Real → Value Real

-- Two fields are one where their keys are.
unfoldable pub same_field : Field → Field → Bool
same_field f g = str_eq (key_name f) (key_name g)

pub record DaemonConfig (Real : Type 0) : Type 0 where
  pub field : Field → Value Real
  pub capabilities : ℕ

module _ {Real : Type 0} where
  unfoldable pub assign : DaemonConfig Real → Field → Value Real → DaemonConfig Real
  assign cfg f v = record cfg { field = λ g. if same_field g f then v else cfg.field g }

-- The `double` conversions: `atof`, and the cast to `int`.
pub record Reals : Type 1 where
  pub Real : Type 0
  pub atof : Bytes → Real
  pub cast : Real → ℤ

module _ (reals : Reals) where
  open reals use {Real, atof, cast}

  unfoldable pub load_value : Kind → Bytes → Value Real
  load_value int_kind val = int (atoi val)
  load_value real_kind val = real (atof val)
  load_value flag_kind val =
      int (if str_eq val (codes "true") || not (is_zero (atoi val)) then pos 1 else pos 0)
  load_value (text_kind size) val = text (printf_s size val)

  unfoldable pub load_pair : DaemonConfig Real → Bytes → Bytes → DaemonConfig Real
  load_pair cfg key val = elim (find_field key load_fields) [
    | none ↦ cfg
    | some f ↦ assign cfg f (load_value (kind f) val)
  ]

  unfoldable pub load_line : DaemonConfig Real → Bytes → DaemonConfig Real
  load_line cfg ln = elim (parse_line ln) [ none ↦ cfg | some (key, val) ↦ load_pair cfg key val ]

  unfoldable pub load_lines : DaemonConfig Real → List Bytes → DaemonConfig Real
  load_lines cfg [] = cfg
  load_lines cfg (ln ∷ lines) = load_lines (load_line cfg ln) lines

  -- behind the read of the file
  unfoldable pub load_text : DaemonConfig Real → Option Bytes → DaemonConfig Real
  load_text cfg none = cfg
  load_text cfg (some buf) = load_lines cfg (split_lines (cstr buf))

  -- A text default, cut to the size that the call of `printf_sn` is given.
  cut_text : ℕ → Value Real → Value Real
  cut_text size (text t) = text (printf_s size t)
  cut_text size v = v

  enabled : Value Real
  enabled = text (codes "enabled")

  -- The assignments at the start of `config_load`; `none` for the fields that it leaves alone.
  default_value : (Field → Value Real) → Field → Option (Value Real)
  default_value build polling_interval = some (build polling_interval)
  default_value build refresh_interval = some (build refresh_interval)
  default_value build dev_enable = some (build dev_enable)
  default_value build affinity_level = some (build affinity_level)
  default_value build affinity_mask = some (cut_text 63 (build affinity_mask))
  default_value build affinity_freq_mask = some (cut_text 63 (build affinity_freq_mask))
  default_value build load_threshold = some (build load_threshold)
  default_value build detection_level = some (build detection_level)
  default_value build ebpf_enable = some (build ebpf_enable)
  default_value build debug_enable = some (build debug_enable)
  default_value build daemon_state = some (text (codes "default"))
  default_value build fallback_profile = some (cut_text 63 (build fallback_profile))
  default_value build server_enabled = some (build server_enabled)
  default_value build server_address = some (cut_text 127 (build server_address))
  default_value build server_port = some (build server_port)
  default_value build server_ssh = some (cut_text 31 (build server_ssh))
  default_value build lint_clang_diagnostic = some enabled
  default_value build lint_clang_bugprone = some enabled
  default_value build lint_clang_modernize = some enabled
  default_value build lint_clang_readability = some enabled
  default_value build lint_clang_performance = some enabled
  default_value build lint_clang_portability = some enabled
  default_value build lint_clang_analyzer = some enabled
  default_value build lint_cppcheck_all = some enabled
  default_value build lint_cppcheck_warning = some enabled
  default_value build lint_cppcheck_style = some enabled
  default_value build lint_cppcheck_performance = some enabled
  default_value build lint_cppcheck_portability = some enabled
  default_value build lint_cppcheck_information = some (text (codes "disabled"))
  default_value build lint_cppcheck_unused = some enabled
  default_value build lint_valgrind_mode = some (text (codes "full"))
  default_value build lint_valgrind_kinds = some (text (codes "all"))
  default_value build lint_valgrind_origins = some enabled
  default_value build _ = none

  unfoldable pub reset : (Field → Value Real) → DaemonConfig Real → DaemonConfig Real
  unfolding default_value cut_text enabled
  reset build cfg = record cfg {
    field = λ f. elim (default_value build f) [ none ↦ cfg.field f | some v ↦ v ];
  }

  -- one bit of `capabilities`
  capability : (k : Kernel) → k.State → String → ℕ → ℕ
  capability k s path bit = if k.access exists (codes path) s then bit else 0

  unfoldable pub config_probe_capabilities :
      (k : Kernel) → k.State → DaemonConfig Real → DaemonConfig Real
  unfolding capability
  config_probe_capabilities k s cfg = record cfg {
    capabilities =
        capability k s "/proc/sys/kernel/sched_bore" 1
        + capability k s "/sys/kernel/mm/transparent_hugepage/enabled" 2
        + capability k s "/proc/sys/kernel/split_lock_mitigate" 4
        + capability k s "/proc/sys/kernel/nmi_watchdog" 8
        + capability k s "/proc/sys/net/ipv4/tcp_fastopen" 16
        + capability k s "/proc/sys/net/core/default_qdisc" 32;
  }

  -- `path` is DAEMON_CONF_PATH; the buffer has 4096 bytes.
  unfoldable pub config_load :
      (k : Kernel) → Bytes → (Field → Value Real) → k.State → DaemonConfig Real → DaemonConfig Real
  config_load k path build s cfg =
      load_text (reset build (config_probe_capabilities k s cfg)) (k.read_file path 4095 s)

  -- What `config_get` answers for the value of a field. `printf_vsn` knows no "%.2f" and writes
  -- its last letter.
  shown : Value Real → Field → Bytes
  shown (real r) load_threshold = printf_d 128 (cast r)
  shown (real r) f = codes "f"
  shown (int n) f = printf_d 128 n
  shown (text t) f = t

  -- The chain of tests of `config_get`, which ends with AFFINITY_LEVEL among the others.
  unfoldable pub get_fields : List Field
  get_fields = affinity_level ∷ load_fields

  unfoldable pub config_get : DaemonConfig Real → Bytes → Bytes
  unfolding shown get_fields
  config_get cfg key = elim (find_field key get_fields) [
    | none ↦ codes "ERR"
    | some f ↦ shown (cfg.field f) f
  ]
