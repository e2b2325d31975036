-- ===== src/Config/Fields.antt =====
-- The settings that src/daemon/config.c reads and answers: the fields of `DaemonConfig`, the keys
-- that name them, and the type that each has.
use x3d_toggle_main.Prelude.{ℕ, List, [], ◌∷◌, Bytes, codes}

-- The fields of the struct that have a key.
pub data Field : Type 0 where
  polling_interval refresh_interval dev_enable load_threshold detection_level : Field
  ebpf_enable debug_enable daemon_state fallback_profile server_enabled server_address : Field
  server_port server_ssh affinity_mask affinity_freq_mask sched_bore sched_bit_shift : Field
  sched_burst_fork sched_slice_us vm_max_map split_lock_detect nmi_watchdog thp_mode : Field
  net_qdisc net_fastopen net_rp_filter net_source_route irq_enable irq_gpu irq_nvme : Field
  irq_usb irq_nic irq_audio irq_coalesce irq_watch advanced_config_enable : Field
  force_unsupported_display lint_clang_diagnostic lint_clang_bugprone : Field
  lint_clang_modernize lint_clang_readability lint_clang_performance : Field
  lint_clang_portability lint_clang_analyzer lint_cppcheck_all lint_cppcheck_warning : Field
  lint_cppcheck_style lint_cppcheck_performance lint_cppcheck_portability : Field
  lint_cppcheck_information lint_cppcheck_unused lint_valgrind_mode lint_valgrind_kinds : Field
  lint_valgrind_origins journal_keep journal_max_mb affinity_level : Field

-- The key of a field, as the source spells it.
unfoldable pub key_name : Field → Bytes
key_name polling_interval = codes "POLLING_INTERVAL"
key_name refresh_interval = codes "REFRESH_INTERVAL"
key_name dev_enable = codes "DEV_ENABLE"
key_name load_threshold = codes "LOAD_THRESHOLD"
key_name detection_level = codes "DETECTION_LEVEL"
key_name ebpf_enable = codes "EBPF_ENABLE"
key_name debug_enable = codes "DEBUG_ENABLE"
key_name daemon_state = codes "DAEMON_STATE"
key_name fallback_profile = codes "FALLBACK_PROFILE"
key_name server_enabled = codes "SERVER_ENABLED"
key_name server_address = codes "SERVER_ADDRESS"
key_name server_port = codes "SERVER_PORT"
key_name server_ssh = codes "SERVER_SSH"
key_name affinity_mask = codes "AFFINITY_MASK"
key_name affinity_freq_mask = codes "AFFINITY_FREQ_MASK"
key_name sched_bore = codes "SCHED_BORE"
key_name sched_bit_shift = codes "SCHED_BIT_SHIFT"
key_name sched_burst_fork = codes "SCHED_BURST_FORK"
key_name sched_slice_us = codes "SCHED_SLICE_US"
key_name vm_max_map = codes "VM_MAX_MAP"
key_name split_lock_detect = codes "SPLIT_LOCK_DETECT"
key_name nmi_watchdog = codes "NMI_WATCHDOG"
key_name thp_mode = codes "THP_MODE"
key_name net_qdisc = codes "NET_QDISC"
key_name net_fastopen = codes "NET_FASTOPEN"
key_name net_rp_filter = codes "NET_RP_FILTER"
key_name net_source_route = codes "NET_SOURCE_ROUTE"
key_name irq_enable = codes "IRQ_ENABLE"
key_name irq_gpu = codes "IRQ_GPU"
key_name irq_nvme = codes "IRQ_NVME"
key_name irq_usb = codes "IRQ_USB"
key_name irq_nic = codes "IRQ_NIC"
key_name irq_audio = codes "IRQ_AUDIO"
key_name irq_coalesce = codes "IRQ_COALESCE"
key_name irq_watch = codes "IRQ_WATCH"
key_name advanced_config_enable = codes "ADVANCED_CONFIG_ENABLE"
key_name force_unsupported_display = codes "FORCE_UNSUPPORTED_DISPLAY"
key_name lint_clang_diagnostic = codes "LINT_CLANG_DIAGNOSTIC"
key_name lint_clang_bugprone = codes "LINT_CLANG_BUGPRONE"
key_name lint_clang_modernize = codes "LINT_CLANG_MODERNIZE"
key_name lint_clang_readability = codes "LINT_CLANG_READABILITY"
key_name lint_clang_performance = codes "LINT_CLANG_PERFORMANCE"
key_name lint_clang_portability = codes "LINT_CLANG_PORTABILITY"
key_name lint_clang_analyzer = codes "LINT_CLANG_ANALYZER"
key_name lint_cppcheck_all = codes "LINT_CPPCHECK_ALL"
key_name lint_cppcheck_warning = codes "LINT_CPPCHECK_WARNING"
key_name lint_cppcheck_style = codes "LINT_CPPCHECK_STYLE"
key_name lint_cppcheck_performance = codes "LINT_CPPCHECK_PERFORMANCE"
key_name lint_cppcheck_portability = codes "LINT_CPPCHECK_PORTABILITY"
key_name lint_cppcheck_information = codes "LINT_CPPCHECK_INFORMATION"
key_name lint_cppcheck_unused = codes "LINT_CPPCHECK_UNUSED"
key_name lint_valgrind_mode = codes "LINT_VALGRIND_MODE"
key_name lint_valgrind_kinds = codes "LINT_VALGRIND_KINDS"
key_name lint_valgrind_origins = codes "LINT_VALGRIND_ORIGINS"
key_name journal_keep = codes "JOURNAL_KEEP"
key_name journal_max_mb = codes "JOURNAL_MAX_MB"
key_name affinity_level = codes "AFFINITY_LEVEL"

-- What is assigned to a field: an `int`, a text cut to a size, a `double`, or the test of
-- SERVER_ENABLED.
pub data Kind : Type 0 where
  int_kind real_kind flag_kind : Kind
  text_kind : ℕ → Kind

unfoldable pub kind : Field → Kind
kind refresh_interval = real_kind
kind load_threshold = real_kind
kind daemon_state = text_kind 31
kind fallback_profile = text_kind 63
kind server_enabled = flag_kind
kind server_address = text_kind 127
kind server_ssh = text_kind 31
kind affinity_mask = text_kind 63
kind affinity_freq_mask = text_kind 63
kind thp_mode = text_kind 15
kind net_qdisc = text_kind 31
kind lint_clang_diagnostic = text_kind 15
kind lint_clang_bugprone = text_kind 15
kind lint_clang_modernize = text_kind 15
kind lint_clang_readability = text_kind 15
kind lint_clang_performance = text_kind 15
kind lint_clang_portability = text_kind 15
kind lint_clang_analyzer = text_kind 15
kind lint_cppcheck_all = text_kind 15
kind lint_cppcheck_warning = text_kind 15
kind lint_cppcheck_style = text_kind 15
kind lint_cppcheck_performance = text_kind 15
kind lint_cppcheck_portability = text_kind 15
kind lint_cppcheck_information = text_kind 15
kind lint_cppcheck_unused = text_kind 15
kind lint_valgrind_mode = text_kind 15
kind lint_valgrind_kinds = text_kind 31
kind lint_valgrind_origins = text_kind 15
kind _ = int_kind

-- The fields in the order in which `config_load` tests for their keys; it has no test for
-- AFFINITY_LEVEL.
unfoldable pub load_fields : List Field
load_fields =
    polling_interval ∷ refresh_interval ∷ dev_enable ∷ load_threshold ∷ detection_level
    ∷ ebpf_enable ∷ debug_enable ∷ daemon_state ∷ fallback_profile ∷ server_enabled ∷ server_address
    ∷ server_port ∷ server_ssh ∷ affinity_mask ∷ affinity_freq_mask ∷ sched_bore ∷ sched_bit_shift
    ∷ sched_burst_fork ∷ sched_slice_us ∷ vm_max_map ∷ split_lock_detect ∷ nmi_watchdog ∷ thp_mode
    ∷ net_qdisc ∷ net_fastopen ∷ net_rp_filter ∷ net_source_route ∷ irq_enable ∷ irq_gpu ∷ irq_nvme
    ∷ irq_usb ∷ irq_nic ∷ irq_audio ∷ irq_coalesce ∷ irq_watch ∷ advanced_config_enable
    ∷ force_unsupported_display ∷ lint_clang_diagnostic ∷ lint_clang_bugprone ∷ lint_clang_modernize
    ∷ lint_clang_readability ∷ lint_clang_performance ∷ lint_clang_portability ∷ lint_clang_analyzer
    ∷ lint_cppcheck_all ∷ lint_cppcheck_warning ∷ lint_cppcheck_style ∷ lint_cppcheck_performance
    ∷ lint_cppcheck_portability ∷ lint_cppcheck_information ∷ lint_cppcheck_unused
    ∷ lint_valgrind_mode ∷ lint_valgrind_kinds ∷ lint_valgrind_origins ∷ journal_keep
    ∷ journal_max_mb ∷ []
