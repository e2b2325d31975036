-- ===== src/Irq/Bind.antt =====
-- src/irq.c: the operations of the program on interrupts, over the globals of the file. The messages
-- to the journal are left out, and so are the results of the system commands that only decide on a
-- message.
use x3d_toggle_main.Prelude.{
  ℕ, Bool, false, not, ◌||◌, Option, none, some, List, [], ◌∷◌, ◌++◌, ◌==◌, if◌then◌else◌, String,
  ℤ, pos, negsuc, Bytes, codes, length,
}
use x3d_toggle_main.Libc.Bounded.{printf_s}
use x3d_toggle_main.Libc.Strings.Equal.{is_zero}
use x3d_toggle_main.Errors.{err_success, is_negative}
use x3d_toggle_main.Kernel.{Kernel, wronly_create_trunc}
use x3d_toggle_main.Irq.Config.{IrqConfig, load_config, resolve_target_core, file_exists}
use x3d_toggle_main.Irq.Discover.{discover_irqs, verify_msi}
use x3d_toggle_main.Irq.Masks.{irq_state_dir, apply_list}

abbrev pub err_irq_udev : ℤ
err_irq_udev = negsuc 42

abbrev pub irq_udev_rules : Bytes
irq_udev_rules = codes "/etc/udev/rules.d/99-x3d-irq.rules"

abbrev pub irq_balancer_state : Bytes
irq_balancer_state = codes "/run/x3d-toggle/irqbalance_was_active"

-- The globals g_cfg, g_gpu_irqs, …, g_nic_names (g_nic_count is its length), and the kernel.
pub record Irqs (k : Kernel) : Type 0 where
  pub kernel : k.State
  pub cfg : IrqConfig
  pub gpu_irqs : List ℤ
  pub nvme_irqs : List ℤ
  pub usb_irqs : List ℤ
  pub nic_irqs : List ℤ
  pub audio_irqs : List ℤ
  pub nic_names : List Bytes

-- the globals as a process starts with them
abbrev pub fresh_config : IrqConfig
fresh_config = record {
  target_core = pos 0;
  irq_enable = pos 0;
  irq_pinning = pos 0;
  irq_gpu = pos 0;
  irq_nvme = pos 0;
  irq_usb = pos 0;
  irq_nic = pos 0;
  irq_audio = pos 0;
  irq_coalesce = pos 0;
  irq_watch = pos 0;
  thread_control = pos 0;
  thread_cap = pos 0;
  thread_exempt = [];
}

abbrev pub fresh : (k : Kernel) → k.State → Irqs k
fresh k s = record {
  kernel = s;
  cfg = fresh_config;
  gpu_irqs = [];
  nvme_irqs = [];
  usb_irqs = [];
  nic_irqs = [];
  audio_irqs = [];
  nic_names = [];
}

-- `!g_cfg.irq_enable || g_cfg.irq_pinning == 3`
unfoldable pub is_off : IrqConfig → Bool
is_off cfg = is_zero cfg.irq_enable || elim cfg.irq_pinning [ pos n ↦ n == 3 | negsuc _ ↦ false ]

module _ (k : Kernel) where
  -- whether `systemctl is-active` exited with 0
  unfoldable pub was_active : k.State × Option ℕ → Bool
  was_active (s, none) = false
  was_active (s, some status) = status == 0

  unfoldable pub disable_irqbalance : k.State → k.State
  disable_irqbalance s =
      let ret = k.system (codes "systemctl is-active --quiet irqbalance 2>/dev/null") s in
      let kept =
        (k.write_file wronly_create_trunc irq_balancer_state (codes "1")
          (k.mkdir irq_state_dir ret.0).0).0 in
      if was_active ret
      then (k.system (codes "systemctl stop irqbalance 2>/dev/null") kept).0
      else ret.0

  unfoldable pub restore_irqbalance : k.State → k.State
  restore_irqbalance s =
      if file_exists k irq_balancer_state s
      then k.unlink irq_balancer_state
          (k.system (codes "systemctl start irqbalance 2>/dev/null") s).0
      else s

  unfoldable pub coalesce_command : Bool → Bytes → Bytes
  coalesce_command enable name = printf_s 256 (
      codes "ethtool -C "
      ++ name
      ++ (if enable
          then codes " rx-usecs 0 tx-usecs 0 2>/dev/null"
          else codes " rx-usecs 50 tx-usecs 50 2>/dev/null"))

  unfoldable pub apply_coalescing : Bool → List Bytes → k.State → k.State
  apply_coalescing enable [] s = s
  apply_coalescing enable (name ∷ names) s =
      apply_coalescing enable names (k.system (coalesce_command enable name) s).0

  unfoldable pub irq_init : Irqs k → Irqs k × ℤ
  irq_init m =
      let loaded = load_config k m.kernel m.cfg in
      let core = resolve_target_core k m.kernel loaded.0 in
      let with_config = record m { cfg = loaded.0 } in
      let with_core = record m { cfg = record loaded.0 { target_core = core } } in
      if not (is_zero loaded.1)
      then (with_config, loaded.1)
      else if is_off loaded.0
      then (with_config, err_success)
      else if is_negative core
      then (with_core, err_success)
      else (
        record (fresh k (disable_irqbalance m.kernel)) {
          cfg = with_core.cfg;
          nic_names = m.nic_names;
        },
        err_success,
      )

  -- the interrupts of a driver, or those of another where it has none
  unfoldable pub discover_either : String → String → k.State → List ℤ
  discover_either token other s =
      let irqs = discover_irqs k token s in
      if length irqs == 0 then discover_irqs k other s else irqs

  -- `for (…) if (verify_msi(…)) verified.irqs[verified.count++] = …`
  unfoldable pub verified : k.State → List ℤ → List ℤ
  verified s [] = []
  verified s (irq ∷ irqs) = if verify_msi k s irq then irq ∷ verified s irqs else verified s irqs

  unfoldable pub irq_bind_gpu : Irqs k → Irqs k × ℤ
  irq_bind_gpu m =
      let irqs = discover_either "amdgpu" "nouveau" m.kernel in
      let checked = verified m.kernel irqs in
      if is_off m.cfg || is_zero m.cfg.irq_gpu
      then (m, err_success)
      else if length irqs == 0
      then (record m { gpu_irqs = irqs }, err_success)
      else (
        record m { kernel = apply_list k checked m.cfg.target_core m.kernel; gpu_irqs = checked },
        err_success,
      )
