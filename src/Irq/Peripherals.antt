-- ===== src/Irq/Peripherals.antt =====
-- src/irq.c: the interrupts of the devices other than the graphics card, the rules for udev, the
-- teardown, and the commands `irq-bind`, `irq-reset` and `irq-udev`.
use x3d_toggle_main.Prelude.{
  true, false, Option, none, some, [], ◌++◌, ◌==◌, if◌then◌else◌, String, ℤ, Bytes, codes, length,
}
use x3d_toggle_main.Libc.Strings.Equal.{is_zero}
use x3d_toggle_main.Errors.{err_success}
use x3d_toggle_main.Kernel.{Kernel, wronly_create_trunc}
use x3d_toggle_main.Irq.Config.{file_exists}
use x3d_toggle_main.Irq.Discover.{discover_irqs, discover_nic_names}
use x3d_toggle_main.Irq.Masks.{apply_list, restore_list}
use x3d_toggle_main.Irq.Bind.{
  Irqs, is_off, discover_either, apply_coalescing, restore_irqbalance, irq_init, irq_bind_gpu,
  err_irq_udev, irq_udev_rules,
}

-- a rule for the drivers
unfoldable pub udev_rule : String → Bytes
udev_rule driver =
    codes "ACTION==\"add\", SUBSYSTEM==\"pci\", DRIVER==\""
    ++ codes driver
    ++ codes "\", RUN+=\"/usr/bin/x3d-toggle irq-bind\"\n"

abbrev pub reload_rules : Bytes
reload_rules = codes "udevadm control --reload-rules 2>/dev/null"

module _ (k : Kernel) where
  unfoldable pub bind_nvme : Irqs k → Irqs k
  bind_nvme m =
      let irqs = discover_irqs k "nvme" m.kernel in
      if is_zero m.cfg.irq_nvme
      then m
      else record m { nvme_irqs = irqs; kernel = apply_list k irqs m.cfg.target_core m.kernel }

  unfoldable pub bind_usb : Irqs k → Irqs k
  bind_usb m =
      let irqs = discover_irqs k "xhci_hcd" m.kernel in
      if is_zero m.cfg.irq_usb
      then m
      else record m { usb_irqs = irqs; kernel = apply_list k irqs m.cfg.target_core m.kernel }

  unfoldable pub bind_nic : Irqs k → Irqs k
  bind_nic m =
      let irqs = discover_either k "eth" "enp" m.kernel in
      let bound = apply_list k irqs m.cfg.target_core m.kernel in
      let names = discover_nic_names k bound in
      if is_zero m.cfg.irq_nic
      then m
      else if length irqs == 0
      then record m { nic_irqs = irqs }
      else if is_zero m.cfg.irq_coalesce
      then record m { nic_irqs = irqs; kernel = bound }
      else record m {
        nic_irqs = irqs;
        nic_names = names;
        kernel = apply_coalescing k true names bound;
      }

  unfoldable pub bind_audio : Irqs k → Irqs k
  bind_audio m =
      let irqs = discover_either k "snd_hda" "snd-hda" m.kernel in
      if is_zero m.cfg.irq_audio
      then m
      else record m { audio_irqs = irqs; kernel = apply_list k irqs m.cfg.target_core m.kernel }

  unfoldable pub irq_bind_peripherals : Irqs k → Irqs k × ℤ
  irq_bind_peripherals m =
      if is_off m.cfg
      then (m, err_success)
      else (bind_audio (bind_nic (bind_usb (bind_nvme m))), err_success)

  -- the header and the rules, in the order in which they are written
  unfoldable pub udev_rules : Irqs k → Bytes
  udev_rules m =
      codes "# X3D Toggle IRQ Affinity Rules (auto-generated)\n"
      ++ codes "# Re-asserts IRQ affinity on device add/reset events\n\n"
      ++ (if is_zero m.cfg.irq_gpu then [] else udev_rule "amdgpu|nouveau")
      ++ (if is_zero m.cfg.irq_nvme then [] else udev_rule "nvme")
      ++ (if is_zero m.cfg.irq_usb then [] else udev_rule "xhci_hcd")

  -- behind the open and the writes; the writes to the one descriptor are taken together
  unfoldable pub udev_written : Irqs k → k.State × Option ℤ → Irqs k × ℤ
  udev_written m (s, none) = (record m { kernel = s }, err_irq_udev)
  udev_written m (s, some _) = (record m { kernel = (k.system reload_rules s).0 }, err_success)

  unfoldable pub irq_gen_udev : Irqs k → Irqs k × ℤ
  irq_gen_udev m =
      if is_off m.cfg
      then (m, err_success)
      else udev_written m (k.write_file wronly_create_trunc irq_udev_rules (udev_rules m) m.kernel)

  unfoldable pub remove_rules : k.State → k.State
  remove_rules s =
      if file_exists k irq_udev_rules s
      then (k.system reload_rules (k.unlink irq_udev_rules s)).0
      else s

  unfoldable pub irq_teardown : Irqs k → Irqs k × ℤ
  irq_teardown m =
      let gpu = restore_list k m.gpu_irqs m.kernel in
      let nvme = restore_list k m.nvme_irqs gpu in
      let usb = restore_list k m.usb_irqs nvme in
      let nic = restore_list k m.nic_irqs usb in
      let audio = restore_list k m.audio_irqs nic in
      let coalesced =
        if is_zero m.cfg.irq_coalesce then audio else apply_coalescing k false m.nic_names audio in
      (record m { kernel = restore_irqbalance k (remove_rules coalesced) }, err_success)

  -- `if (rc != ERR_SUCCESS) return rc;`
  unfoldable pub and_then : Irqs k × ℤ → (Irqs k → Irqs k × ℤ) → Irqs k × ℤ
  and_then (m, rc) next = if is_zero rc then next m else (m, rc)

  unfoldable pub cli_irq_bind : Irqs k → Irqs k × ℤ
  cli_irq_bind m =
      and_then (and_then (and_then (irq_init k m) (irq_bind_gpu k)) irq_bind_peripherals)
        irq_gen_udev

  unfoldable pub cli_irq_reset : Irqs k → Irqs k × ℤ
  cli_irq_reset m = irq_teardown m

  unfoldable pub cli_irq_udev : Irqs k → Irqs k × ℤ
  cli_irq_udev m = and_then (irq_init k m) irq_gen_udev
