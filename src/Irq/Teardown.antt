-- ===== src/Irq/Teardown.antt =====
-- What `irq-reset` leaves of the interrupts that `irq-bind` has bound: the two commands are processes
-- of their own.
use x3d_toggle_main.Prelude.{◌≡◌, refl, false, List, [], ◌∷◌, ◌++◌, ℤ, Bytes, Bool-cases, inl, inr}
use x3d_toggle_main.Libc.Bounded.{printf_d}
use x3d_toggle_main.Kernel.{Kernel}
use x3d_toggle_main.Irq.Config.{file_exists}
use x3d_toggle_main.Irq.Masks.{mask_path, apply_list, restore_list}
use x3d_toggle_main.Irq.Nodes.{HasMasks}
use x3d_toggle_main.Irq.RestoreLists.{ShowAll, GoodMasks, restore_list-apply_list}
use x3d_toggle_main.Irq.Apart.{AllDifferent}
use x3d_toggle_main.Irq.Bind.{Irqs, fresh, restore_irqbalance, irq_balancer_state, irq_udev_rules}
use x3d_toggle_main.Irq.Peripherals.{remove_rules, irq_teardown, cli_irq_reset, reload_rules}
use x3d_toggle_main.Irq.Watch.{exempt_command}

-- The commands that the program runs which do not concern interrupts leave the masks alone: `taskset`
-- on the threads of a program, and `udevadm` when it loads its rules again; and so does the removal of
-- the file of the rules.
pub record IsQuiet (k : Kernel) (masks : HasMasks k) : Type 0 where
  pub taskset_shows :
      (irq : ℤ) (mask token cores : Bytes) (s : k.State)
      → masks.Shows (mask_path irq) mask s
      → masks.Shows (mask_path irq) mask (k.system (exempt_command token cores) s).0
  pub reload_shows :
      (irq : ℤ) (mask : Bytes) (s : k.State)
      → masks.Shows (mask_path irq) mask s
      → masks.Shows (mask_path irq) mask (k.system reload_rules s).0
  pub rules_shows :
      (irq : ℤ) (mask : Bytes) (s : k.State)
      → masks.Shows (mask_path irq) mask s
      → masks.Shows (mask_path irq) mask (k.unlink irq_udev_rules s)

module _ (k : Kernel) where
  -- every interrupt that the program has bound, in the order in which it is restored
  unfoldable pub bound_irqs : Irqs k → List ℤ
  bound_irqs m = m.gpu_irqs ++ (m.nvme_irqs ++ (m.usb_irqs ++ (m.nic_irqs ++ m.audio_irqs)))

module _ (k : Kernel) (masks : HasMasks k) (quiet : IsQuiet k masks) where
  open masks use {Shows, Accepts}

  remove_rules-Shows :
      (irq : ℤ) (mask : Bytes) (s : k.State)
      → Shows (mask_path irq) mask s
      → Shows (mask_path irq) mask (remove_rules k s)
  unfolding remove_rules
  remove_rules-Shows irq mask s h = elim (Bool-cases (file_exists k irq_udev_rules s)) [
    | inl e ↦ rw e (quiet.reload_shows irq mask _ (quiet.rules_shows irq mask s h))
    | inr e ↦ rw e h
  ]

  remove_rules-ShowAll :
      (mask : ℤ → Bytes) (irqs : List ℤ) (s : k.State)
      → ShowAll k masks mask s irqs
      → ShowAll k masks mask (remove_rules k s) irqs
  remove_rules-ShowAll mask [] s h = tt
  remove_rules-ShowAll mask (irq ∷ irqs) s (h, hs) =
      (remove_rules-Shows irq (mask irq) s h, remove_rules-ShowAll mask irqs s hs)

  -- A new process has no lists: nothing is restored from the saved masks.
  reset-kernel :
      (s : k.State)
      → file_exists k irq_balancer_state (remove_rules k s) ≡ false
      → (cli_irq_reset k (fresh k s)).0.kernel ≡ remove_rules k s
  unfolding cli_irq_reset irq_teardown restore_list restore_irqbalance
  reset-kernel s h = rw h refl

  -- Interrupts, which are different numbers and have masks of one line that the kernel takes, are
  -- bound to a core that it takes, which saves their masks. Where irqbalance did not run before: when
  -- the command `irq-reset`, a process of its own, has ended, each of them is still bound to the core.
  pub cli_irq_reset-bound :
      (irqs : List ℤ) (core : ℤ) (mask : ℤ → Bytes) (s : k.State)
      → AllDifferent irqs
      → GoodMasks k masks mask irqs
      → Accepts (printf_d 16 core)
      → ShowAll k masks mask s irqs
      → file_exists k irq_balancer_state (remove_rules k (apply_list k irqs core s)) ≡ false
      → ShowAll k masks
          (λ _. printf_d 16 core)
          (cli_irq_reset k (fresh k (apply_list k irqs core s))).0.kernel
          irqs
  cli_irq_reset-bound irqs core mask s different good core_ok shown idle =
      let bound = restore_list-apply_list k masks irqs core mask s different good core_ok shown in
      rw (ShowAll, reset-kernel (apply_list k irqs core s) idle)
        (remove_rules-ShowAll (λ _. printf_d 16 core) irqs (apply_list k irqs core s) bound.0)
