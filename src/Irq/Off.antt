-- ===== src/Irq/Off.antt =====
-- The command `irq-bind` where the settings switch the binding off, or cannot be read.
use x3d_toggle_main.Prelude.{◌≡◌, ◌≢◌, refl, ◌⊎◌, inl, inr, true, Bool-cases, ℤ}
use x3d_toggle_main.Libc.Strings.Equal.{is_zero, is_zero_iff}
use x3d_toggle_main.Errors.{err_success}
use x3d_toggle_main.Kernel.{Kernel}
use x3d_toggle_main.Irq.Config.{load_config}
use x3d_toggle_main.Irq.Bind.{Irqs, is_off, irq_init, irq_bind_gpu}
use x3d_toggle_main.Irq.Peripherals.{
  irq_bind_peripherals, irq_gen_udev, and_then, cli_irq_bind, cli_irq_udev,
}

module _ (k : Kernel) where
  init-off :
      (m : Irqs k)
      → ((load_config k m.kernel m.cfg).1 ≢ err_success)
        ⊎ (is_off (load_config k m.kernel m.cfg).0 ≡ true)
      → irq_init k m
        ≡ (record m { cfg = (load_config k m.kernel m.cfg).0 }, (load_config k m.kernel m.cfg).1)
  unfolding irq_init
  init-off m h = elim (Bool-cases (is_zero (load_config k m.kernel m.cfg).1)) [
    | inr failed ↦ rw failed refl
    | inl loaded ↦
        let zero_result : (load_config k m.kernel m.cfg).1 ≡ err_success =
          (is_zero_iff (load_config k m.kernel m.cfg).1).0 loaded in
        off_case zero_result loaded h
  ]
    where
      off_case :
          (load_config k m.kernel m.cfg).1 ≡ err_success
          → is_zero (load_config k m.kernel m.cfg).1 ≡ true
          → ((load_config k m.kernel m.cfg).1 ≢ err_success)
            ⊎ (is_off (load_config k m.kernel m.cfg).0 ≡ true)
          → irq_init k m ≡ (
            record m { cfg = (load_config k m.kernel m.cfg).0 },
            (load_config k m.kernel m.cfg).1,
          )
      off_case e loaded (inl no_load) = absurd (no_load e)
      off_case e loaded (inr off) = rw (loaded, off, e) refl

  bind_gpu-off : (m : Irqs k) → is_off m.cfg ≡ true → irq_bind_gpu k m ≡ (m, err_success)
  unfolding irq_bind_gpu
  bind_gpu-off m off = rw off refl

  bind_peripherals-off :
      (m : Irqs k) → is_off m.cfg ≡ true → irq_bind_peripherals k m ≡ (m, err_success)
  unfolding irq_bind_peripherals
  bind_peripherals-off m off = rw off refl

  gen_udev-off : (m : Irqs k) → is_off m.cfg ≡ true → irq_gen_udev k m ≡ (m, err_success)
  unfolding irq_gen_udev
  gen_udev-off m off = rw off refl

  -- Behind an `irq_init` that fails or finds the binding switched off, nothing more happens.
  next-off :
      (m : Irqs k) (rc : ℤ)
      → (rc ≢ err_success) ⊎ (is_off m.cfg ≡ true)
      → (and_then k
            (and_then k (and_then k (m, rc) (irq_bind_gpu k)) (irq_bind_peripherals k))
            (irq_gen_udev k)
          ≡ (m, rc))
        × (and_then k (m, rc) (irq_gen_udev k) ≡ (m, rc))
  unfolding and_then
  next-off m rc h = elim (Bool-cases (is_zero rc)) [
    | inr failed ↦ rw (failed, failed, failed) (refl, refl)
    | inl fine ↦ switched_off ((is_zero_iff rc).0 fine) h
  ]
    where
      switched_off :
          rc ≡ err_success
          → (rc ≢ err_success) ⊎ (is_off m.cfg ≡ true)
          → (and_then k
                (and_then k (and_then k (m, rc) (irq_bind_gpu k)) (irq_bind_peripherals k))
                (irq_gen_udev k)
              ≡ (m, rc))
            × (and_then k (m, rc) (irq_gen_udev k) ≡ (m, rc))
      switched_off e (inl no_load) = absurd (no_load e)
      switched_off e (inr off) =
          rw (e, bind_gpu-off m off, bind_peripherals-off m off, gen_udev-off m off) (refl, refl)

  -- Where the settings cannot be read, or switch the binding off, or leave it to nobody (pinning 3):
  -- the commands `irq-bind` and `irq-udev` give the result of `load_config`, and change nothing but
  -- the settings that they keep: no file is written and no command is run.
  cli_irq_bind-off :
      (m : Irqs k)
      → ((load_config k m.kernel m.cfg).1 ≢ err_success)
        ⊎ (is_off (load_config k m.kernel m.cfg).0 ≡ true)
      → let loaded = load_config k m.kernel m.cfg in
        (cli_irq_bind k m ≡ (record m { cfg = loaded.0 }, loaded.1))
        × (cli_irq_udev k m ≡ (record m { cfg = loaded.0 }, loaded.1))
  unfolding cli_irq_bind cli_irq_udev
  cli_irq_bind-off m h = rw (init-off m h) (next-off _ _ h)
