-- ===== src/Cli/Table.antt =====
-- src/cli/cli.c: the table of the commands. A handler is named as its function, without the prefix
-- `cli_`.
use mathlib.Core.Option.{some_inj}
use x3d_toggle_main.Prelude.{ℕ, ◌≡◌, refl, sym, ap, ◌∙◌, List, [], ◌∷◌, some, String, get_elem?}

pub data Handler : Type 0 where
  daemon_enable daemon_start daemon_wake daemon_sleep daemon_stop daemon_disable mode_cache
        mode_frequency mode_dual mode_swap mode_auto mode_reset mode_default config_interval
        config_threshold config_fallback config_detection config_polling config_ebpf config_server
        config_add config_remove config_list config_profile config_sync config_update framework
        config_generate status_dialog status_owl diag_linter diag_debug diag_status diag_rotate
        diag_journal diag_archive diag_dump cppc_perf cppc_bal cppc_eco cppc_power cppc_epp cppc_raw
        cppc_mode cppc_target cppc_governor cppc_prefcore misc_fallback stress_cpu misc_insults
        scheduler_gaming scheduler_balanced irq_bind irq_reset irq_status irq_udev irq_watch
        advanced_config gui_log :
      Handler

pub record Command : Type 0 where
  pub name : String
  pub handler : Handler
  pub help : String

entry : String → Handler → String → Command
entry name handler help = record { name = name; handler = handler; help = help }

-- up to the entry with the name NULL
unfoldable pub cmd_table : List Command
unfolding entry
cmd_table =
    entry "enable" daemon_enable "Soft Wake: Start daemon (no autostart)"
    ∷ entry "start" daemon_start "Hard Wake: Start daemon and enable autostart"
    ∷ entry "wake" daemon_wake "Poke: Refresh state loop via IPC to active status"
    ∷ entry "sleep" daemon_sleep "Firm Sleep: Suspend daemon logic loop to sleep status"
    ∷ entry "stop" daemon_stop "Terminate: Kill daemon process gracefully"
    ∷ entry "disable" daemon_disable "Unregister: Stop and remove autostart rules"
    ∷ entry "elk" daemon_enable "Alias for enable/default"
    ∷ entry "rooster" daemon_wake "Alias for wake"
    ∷ entry "pause" daemon_sleep "Alias for sleep"
    ∷ entry "koala" daemon_sleep "Alias for sleep"
    ∷ entry "loris" daemon_stop "Alias for stop"
    ∷ entry "sloth" daemon_disable "Alias for disable"
    ∷ entry "sonic" daemon_start "Alias for start"
    ∷ entry "cache" mode_cache "Force CCD0: Prioritize 3D V-Cache, suspending daemon"
    ∷ entry "frequency" mode_frequency "Force CCD1: Prioritize frequency cores, suspending daemon"
    ∷ entry "dual" mode_dual "Unpark all: Maximize throughput across CCDs, suspending daemon"
    ∷ entry "swap" mode_swap
        "Invert Priority: Dynamically flip preferred core tags, suspending daemon"
    ∷ entry "auto" mode_auto
        "Hard Reset: Restore base CPPC states, removing daemon from autostart and terminating current session"
    ∷ entry "reset" mode_reset
        "Restore/Reprobe: Revert to autonomous daemon state by reloading current daemon configuration"
    ∷ entry "default" mode_default
        "Soft Reset: Restore daemon default configuration and restart, but leave CPPC and v-cache alone"
    ∷ entry "rabbit" mode_cache "Alias for cache"
    ∷ entry "cheetah" mode_frequency "Alias for frequency"
    ∷ entry "bear" mode_dual "Alias for dual"
    ∷ entry "chameleon" mode_swap "Alias for swap"
    ∷ entry "moose" mode_default "Alias for default"
    ∷ entry "elephant" mode_reset "Alias for reset"
    ∷ entry "interval" config_interval "Polling Rate: Adjust daemon evaluation loop frequency"
    ∷ entry "threshold" config_threshold
        "Compute Load: Adjust background compute detection threshold"
    ∷ entry "fallback" config_fallback "Baseline State: Hardware state with no active triggers"
    ∷ entry "detection" config_detection
        "Detection Mode: Toggle between Polling and eBPF tracking for the task scheduler"
    ∷ entry "polling" config_polling
        "Detection Mode: Disable eBPF and fall back to polling heuristics for task scheduler"
    ∷ entry "ebpf" config_ebpf "Detection Mode: Enable eBPF tracker for Zero-Latency task scheduler"
    ∷ entry "server" config_server "Dashboard Server: Set dashboard URL and Port"
    ∷ entry "add" config_add "Watch: Append executable to trigger list"
    ∷ entry "remove" config_remove "Ignore: Strip executable from trigger list"
    ∷ entry "list" config_list "View: Output active monitored processes"
    ∷ entry "profile" config_profile "Macro Management: Snapshot/load states to JSON/YAML"
    ∷ entry "sync" config_sync "Persist: Flush session config to persistent storage"
    ∷ entry "update" config_update
        "Rebuild: Regenerate /etc/x3d-toggle.d from edited settings.conf / games.conf"
    ∷ entry "tick" config_interval "Alias for interval"
    ∷ entry "anchor" config_fallback "Alias for fallback"
    ∷ entry "commit" config_sync "Alias for sync"
    ∷ entry "bpf" config_ebpf "Alias for ebpf"
    ∷ entry "framework" framework
        "Orchestration: Access structural scaffolding and installation suite"
    ∷ entry "--gen-config" config_generate "Hidden: Generate C-native topology configuration"
    ∷ entry "dialog" status_dialog "Dynamic Monitor: Pop-out status window"
    ∷ entry "monitor" status_dialog "Internal Loop: Refresh view, alias for dialog"
    ∷ entry "owl" status_owl "Self-Contained Dashboard: Conditionally start daemon & monitor"
    ∷ entry "linter" diag_linter "Developer Audit: Project-wide static and dynamic analysis scan"
    ∷ entry "debug" diag_debug "MVC Observer: Real-time daemon and eBPF event monitor"
    ∷ entry "status" diag_status "Echo Snapshot: Daemon state and IPC connections"
    ∷ entry "rotate-log" diag_rotate "Clean: Truncate and compress standard logs"
    ∷ entry "rotate-audit" diag_rotate "Clean: Truncate and compress audit records"
    ∷ entry "rotate-all" diag_rotate "Clean: Truncate and compress all project logs"
    ∷ entry "journal-log" diag_journal "Journal: Manage project activity logs"
    ∷ entry "journal-audit" diag_journal "Journal: Manage diagnostic audits"
    ∷ entry "journal-coredump" diag_journal "Journal: Manage service coredumps"
    ∷ entry "journal-all" diag_journal "Journal: Manage all project logs"
    ∷ entry "journal-archive" diag_archive "Archive: Mandatory session zipping (.gz)"
    ∷ entry "trim" diag_rotate "Trim: Cleanup and retention management"
    ∷ entry "journal-dump" diag_dump "Journal: Analyze service coredumps via coredumpctl"
    ∷ entry "hawk" diag_status "Alias for status"
    ∷ entry "perf" cppc_perf "Set EPP via IPC: Maximum Performance (0x0)"
    ∷ entry "bal" cppc_bal "Set EPP via IPC: Balanced Performance"
    ∷ entry "eco" cppc_eco "Set EPP via IPC: Balanced Power"
    ∷ entry "power" cppc_power "Set EPP via IPC: Minimum Power (0xff)"
    ∷ entry "epp" cppc_epp "Set EPP_CCD via IPC: Shift focus [CCD] [VAL]"
    ∷ entry "cppc-raw" cppc_raw "Set RAW via IPC: Direct register write [VAL] [DEV]"
    ∷ entry "cppc-mode" cppc_mode "Set PSTATE via IPC: Shift operational mode"
    ∷ entry "cppc-target" cppc_target "Set CPPC via IPC: Apply desired performance target"
    ∷ entry "governor" cppc_governor "Set GOVERNOR via IPC: Shift frequency scaling policy"
    ∷ entry "prefcore" cppc_prefcore "Set PREFCORE via IPC: Toggle highest_perf hints"
    ∷ entry "fallback" misc_fallback "Baseline State: Hardware state with no active triggers"
    ∷ entry "stress-cpu" stress_cpu "Compute Load: Generate mock throughput load for validation"
    ∷ entry "insults" misc_insults "The Great Book of Insults: View all funny failure messages"
    ∷ entry "bible" misc_insults "Alias for insults"
    ∷ entry "sched-gaming" scheduler_gaming "Scheduler: Tighten CFS to 3ms + BORE Shift 14"
    ∷ entry "sched-balanced" scheduler_balanced "Scheduler: Restore 5ms CFS + BORE Shift 12"
    ∷ entry "irq-bind" irq_bind "IRQ Affinity: Apply IRQ bindings from settings.conf"
    ∷ entry "irq-reset" irq_reset "IRQ Affinity: Teardown all IRQ bindings and restore irqbalance"
    ∷ entry "irq-status" irq_status "IRQ Affinity: Display current IRQ vector affinity map"
    ∷ entry "irq-udev" irq_udev "IRQ Affinity: Regenerate 99-x3d-irq.rules udev ruleset"
    ∷ entry "irq-watch" irq_watch "IRQ Affinity: Persistent loop to re-assert active bindings"
    ∷ entry "advanced" advanced_config "Advanced Configuration: Get/Set system tunables"
    ∷ entry "gui-log" gui_log "Internal: Log GUI errors"
    ∷ []

-- the place of a handler among all of them
unfoldable pub handler_id : Handler → ℕ
handler_id daemon_enable = 0
handler_id daemon_start = 1
handler_id daemon_wake = 2
handler_id daemon_sleep = 3
handler_id daemon_stop = 4
handler_id daemon_disable = 5
handler_id mode_cache = 6
handler_id mode_frequency = 7
handler_id mode_dual = 8
handler_id mode_swap = 9
handler_id mode_auto = 10
handler_id mode_reset = 11
handler_id mode_default = 12
handler_id config_interval = 13
handler_id config_threshold = 14
handler_id config_fallback = 15
handler_id config_detection = 16
handler_id config_polling = 17
handler_id config_ebpf = 18
handler_id config_server = 19
handler_id config_add = 20
handler_id config_remove = 21
handler_id config_list = 22
handler_id config_profile = 23
handler_id config_sync = 24
handler_id config_update = 25
handler_id framework = 26
handler_id config_generate = 27
handler_id status_dialog = 28
handler_id status_owl = 29
handler_id diag_linter = 30
handler_id diag_debug = 31
handler_id diag_status = 32
handler_id diag_rotate = 33
handler_id diag_journal = 34
handler_id diag_archive = 35
handler_id diag_dump = 36
handler_id cppc_perf = 37
handler_id cppc_bal = 38
handler_id cppc_eco = 39
handler_id cppc_power = 40
handler_id cppc_epp = 41
handler_id cppc_raw = 42
handler_id cppc_mode = 43
handler_id cppc_target = 44
handler_id cppc_governor = 45
handler_id cppc_prefcore = 46
handler_id misc_fallback = 47
handler_id stress_cpu = 48
handler_id misc_insults = 49
handler_id scheduler_gaming = 50
handler_id scheduler_balanced = 51
handler_id irq_bind = 52
handler_id irq_reset = 53
handler_id irq_status = 54
handler_id irq_udev = 55
handler_id irq_watch = 56
handler_id advanced_config = 57
handler_id gui_log = 58

handlers : List Handler
handlers =
    daemon_enable ∷ daemon_start ∷ daemon_wake ∷ daemon_sleep ∷ daemon_stop ∷ daemon_disable
    ∷ mode_cache ∷ mode_frequency ∷ mode_dual ∷ mode_swap ∷ mode_auto ∷ mode_reset ∷ mode_default
    ∷ config_interval ∷ config_threshold ∷ config_fallback ∷ config_detection ∷ config_polling
    ∷ config_ebpf ∷ config_server ∷ config_add ∷ config_remove ∷ config_list ∷ config_profile
    ∷ config_sync ∷ config_update ∷ framework ∷ config_generate ∷ status_dialog ∷ status_owl
    ∷ diag_linter ∷ diag_debug ∷ diag_status ∷ diag_rotate ∷ diag_journal ∷ diag_archive ∷ diag_dump
    ∷ cppc_perf ∷ cppc_bal ∷ cppc_eco ∷ cppc_power ∷ cppc_epp ∷ cppc_raw ∷ cppc_mode ∷ cppc_target
    ∷ cppc_governor ∷ cppc_prefcore ∷ misc_fallback ∷ stress_cpu ∷ misc_insults ∷ scheduler_gaming
    ∷ scheduler_balanced ∷ irq_bind ∷ irq_reset ∷ irq_status ∷ irq_udev ∷ irq_watch
    ∷ advanced_config ∷ gui_log ∷ []

handlers_lem : (h : Handler) → get_elem? handlers (handler_id h) ≡ some h
unfolding handlers handler_id
handlers_lem daemon_enable = refl
handlers_lem _ = refl

pub handler_id_inj : (g h : Handler) → handler_id g ≡ handler_id h → g ≡ h
handler_id_inj g h e =
    some_inj.0 (sym (handlers_lem g) ∙ ap (get_elem? handlers) e ∙ handlers_lem h)
