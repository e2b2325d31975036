-- ===== src/Socket/Settings.antt =====
-- src/socket.c: the requests that read and change the settings: GET_CONFIG, SET_CONFIG, SET_DAEMON
-- and CONFIG_SYNC.
pub mod Persist
use x3d_toggle_main.Prelude.{
  ℕ, ◌-◌, Bool, true, false, not, ◌||◌, ◌&&◌, Option, none, some, List, [], ◌∷◌, ◌==◌,
  if◌then◌else◌, Bytes, codes, cstr, ℤ, pos,
}
use x3d_toggle_main.Libc.Strings.Equal.{is_zero, str_eq}
use x3d_toggle_main.Libc.Numbers.{atoi}
use x3d_toggle_main.Libc.Bounded.{printf_s}
use x3d_toggle_main.Kernel.{Kernel}
use x3d_toggle_main.Config.Fields.{
  Field, detection_level, polling_interval, load_threshold, server_address, ebpf_enable,
  affinity_mask, affinity_freq_mask, dev_enable, debug_enable, affinity_level, refresh_interval,
  fallback_profile, sched_bore, sched_bit_shift, sched_burst_fork, sched_slice_us, vm_max_map,
  split_lock_detect, nmi_watchdog, thp_mode, net_qdisc, net_fastopen, net_rp_filter,
  net_source_route, irq_enable, irq_gpu, irq_nvme, irq_usb, irq_nic, irq_audio, irq_coalesce,
  irq_watch, advanced_config_enable, force_unsupported_display, daemon_state, key_name,
}
use x3d_toggle_main.Config.Update.{config_update}
use x3d_toggle_main.Config.Load.{
  Reals, Value, int, real, text, find_field, assign, config_load, config_get,
}
use x3d_toggle_main.Hardware.Cppc.{cppc_restore}
use x3d_toggle_main.Socket.State.{Host, Daemon, Outcome, set_kernel, answer}
use x3d_toggle_main.Socket.Tuning.{split_blank, with_split}

-- the chain of `strcmp(kv, "…") == 0` of SET_CONFIG
unfoldable pub live_fields : List Field
live_fields =
    detection_level ∷ polling_interval ∷ load_threshold ∷ server_address ∷ ebpf_enable
    ∷ affinity_mask ∷ affinity_freq_mask ∷ dev_enable ∷ debug_enable ∷ affinity_level
    ∷ refresh_interval ∷ fallback_profile ∷ sched_bore ∷ sched_bit_shift ∷ sched_burst_fork
    ∷ sched_slice_us ∷ vm_max_map ∷ split_lock_detect ∷ nmi_watchdog ∷ thp_mode ∷ net_qdisc
    ∷ net_fastopen ∷ net_rp_filter ∷ net_source_route ∷ irq_enable ∷ irq_gpu ∷ irq_nvme ∷ irq_usb
    ∷ irq_nic ∷ irq_audio ∷ irq_coalesce ∷ irq_watch ∷ advanced_config_enable
    ∷ force_unsupported_display ∷ []

-- `config_update`, in the state of the daemon
module _ (reals : Reals) (k : Kernel) (host : Host reals k) where
  abbrev D : Type 0
  D = Daemon reals k

  abbrev Out : Type 0
  Out = Outcome reals k

  unfoldable pub save : Bytes → Bytes → D → D
  save key val d = set_kernel (config_update k host.conf_path key val d.machine.kernel) d

  unfoldable pub handle_get_config : Bytes → D → Out
  handle_get_config key d = answer (cstr (config_get reals d.cfg key)) d

  -- the value that SET_CONFIG assigns to a field; the sizes are those of the fields
  unfoldable pub live_value : Field → Bytes → Value reals.Real
  live_value load_threshold v = real (reals.atof v)
  live_value refresh_interval v = real (reals.atof v)
  live_value server_address v = text (printf_s 128 v)
  live_value affinity_mask v = text (printf_s 64 v)
  live_value affinity_freq_mask v = text (printf_s 64 v)
  live_value fallback_profile v = text (printf_s 64 v)
  live_value thp_mode v = text (printf_s 16 v)
  live_value net_qdisc v = text (printf_s 32 v)
  live_value _ v = int (atoi v)

  -- behind the assignment to `cfg.ebpf_enable`
  unfoldable pub switch_bpf : Bool → D → D
  switch_bpf wanted d =
      if wanted && not d.bpf_active
      then (let (s, ok) = host.bpf_init d.machine.kernel in
          record (set_kernel s d) { bpf_active = ok })
      else if not wanted && d.bpf_active
      then record (set_kernel (host.bpf_cleanup d.machine.kernel) d) { bpf_active = false }
      else d

  abbrev pub is_ebpf : Field → Bool
  is_ebpf ebpf_enable = true
  is_ebpf _ = false

  unfoldable pub set_live : Field → Bytes → D → D
  set_live f v d =
      let d1 : D = record d { cfg = assign d.cfg f (live_value f v) } in
      if is_ebpf f then switch_bpf (not (is_zero (atoi v))) d1 else d1

  unfoldable pub set_found : Option Field → Bytes → D → D
  set_found none v d = d
  set_found (some f) v d = set_live f v d

  unfoldable pub handle_set_config : Bytes → D → Out
  handle_set_config arg d =
      with_split reals k host (split_blank arg) d
        (λ kv v. answer (codes "OK") (set_found (find_field kv live_fields) v (save kv v d)))

  -- behind the two writes of SET_DAEMON; the program that "auto" runs is that of `cppc_restore`
  unfoldable pub clear_override : Bytes → D → D
  clear_override val d =
      if not (d.active_override == 0) && (str_eq val (codes "auto") || str_eq val (codes "default"))
      then record d { active_override = 0 }
      else d

  -- `fork`: whether it fails
  unfoldable pub reset_script : D → D × Bool
  reset_script d =
      let run =
        k.spawn (codes "/bin/sh" ∷ codes "/usr/lib/x3d-toggle/scripts/tools/reset.sh" ∷ [])
          d.machine.kernel in
      (set_kernel run.0 d, elim run.1 [ none ↦ true | some _ ↦ false ])

  unfoldable pub after_reset : Bytes → D × Bool → Out
  after_reset val (d, failed) =
      if failed then answer (codes "ERR") d else answer (codes "OK") (clear_override val d)

  unfoldable pub handle_set_daemon : Bytes → D → Out
  handle_set_daemon val d =
      if str_eq val (codes "manual") || str_eq val (codes "auto") || str_eq val (codes "default")
      then (let saved = save (codes "DAEMON_STATE") val d in
          let d1 : D = record saved {
            cfg = assign saved.cfg daemon_state (text (printf_s 32 val));
          } in
          if str_eq val (codes "auto")
          then after_reset val (reset_script d1)
          else answer (codes "OK") (clear_override val d1))
      else answer (codes "ERR") d

  unfoldable pub handle_config_sync : D → Out
  handle_config_sync d =
      answer (codes "OK")
        (record d { cfg = config_load reals k host.conf_path host.build d.machine.kernel d.cfg })
