-- ===== src/Irq/Reassert.antt =====
-- A whole round of `irq_watch`, over the five lists and the exempt threads, and the command that
-- runs the rounds.
use x3d_toggle_main.Prelude.{
  ℕ, zero, suc, ◌≡◌, refl, sym, ap, ◌∙◌, inl, inr, true, not, ◌||◌, Option, none, some, List, [],
  ◌∷◌, ◌++◌, ℤ, Bytes, Bool-cases, All, arith,
}
use x3d_toggle_main.Libc.Bounded.{printf_d}
use x3d_toggle_main.Libc.Strings.Equal.{is_zero}
use x3d_toggle_main.Kernel.{Kernel}
use x3d_toggle_main.Irq.Config.{read_file_line, load_config}
use x3d_toggle_main.Irq.Masks.{mask_path}
use x3d_toggle_main.Libc.Bounded.Decimal.{IsShort}
use x3d_toggle_main.Irq.Apart.{printf_d-IsLine}
use x3d_toggle_main.Irq.Nodes.{HasMasks}
use x3d_toggle_main.Irq.Bind.{Irqs, fresh, is_off, irq_init}
use x3d_toggle_main.Irq.Watch.{
  exempt_all, exempt_read, full_mask, reassert, watch_list, watch_round, irq_watch_rounds,
  cli_irq_watch,
}
use x3d_toggle_main.Irq.Rounds.{ShowsLine, watch_list_lem}
use x3d_toggle_main.Irq.Teardown.{IsQuiet, bound_irqs}

module _ (k : Kernel) where
  watch_list-append :
      (expected : Bytes) (xs ys : List ℤ) (s : k.State)
      → watch_list k expected (xs ++ ys) s ≡ watch_list k expected ys (watch_list k expected xs s)
  unfolding watch_list
  watch_list-append expected [] ys s = refl
  watch_list-append expected (x ∷ xs) ys s =
      watch_list-append expected xs ys
        (reassert k x expected s (read_file_line k (mask_path x) 64 s))

  watch_list-bound_irqs :
      (e : Bytes) (m : Irqs k)
      → watch_list k e (bound_irqs k m) m.kernel
        ≡ watch_list k e m.audio_irqs (
            watch_list k e m.nic_irqs (
              watch_list k e m.usb_irqs
                (watch_list k e m.nvme_irqs (watch_list k e m.gpu_irqs m.kernel))))
  unfolding bound_irqs
  watch_list-bound_irqs e m =
      rw
        (
          watch_list-append e m.gpu_irqs
              (m.nvme_irqs ++ (m.usb_irqs ++ (m.nic_irqs ++ m.audio_irqs))) m.kernel,
          watch_list-append e m.nvme_irqs (m.usb_irqs ++ (m.nic_irqs ++ m.audio_irqs))
              (watch_list k e m.gpu_irqs m.kernel),
          watch_list-append e m.usb_irqs (m.nic_irqs ++ m.audio_irqs)
              (watch_list k e m.nvme_irqs (watch_list k e m.gpu_irqs m.kernel)),
          watch_list-append e m.nic_irqs m.audio_irqs (
              watch_list k e m.usb_irqs
                (watch_list k e m.nvme_irqs (watch_list k e m.gpu_irqs m.kernel))),
        )
        refl

  round_empty :
      (total : ℤ) (m : Irqs k)
      → bound_irqs k m ≡ []
      → is_zero m.cfg.thread_control ≡ true
      → watch_round k total m ≡ m
  unfolding watch_round
  round_empty total m e t =
      let same : watch_list k (printf_d 16 m.cfg.target_core) (bound_irqs k m) m.kernel ≡ m.kernel =
        rw e (unfold watch_list in refl) in
      let gone = sym (watch_list-bound_irqs (printf_d 16 m.cfg.target_core) m) ∙ same in
      rw (t, gone) refl

  rounds_empty :
      (n : ℕ) (total : ℤ) (m : Irqs k)
      → bound_irqs k m ≡ []
      → is_zero m.cfg.thread_control ≡ true
      → irq_watch_rounds k n total m ≡ m
  unfolding irq_watch_rounds
  rounds_empty zero total m e t = refl
  rounds_empty (suc n) total m e t =
      ap (irq_watch_rounds k n total) (round_empty total m e t) ∙ rounds_empty n total m e t

  -- What `irq_init` leaves in the lists, and the settings, in a process that has just started.
  init-fresh :
      (s : k.State)
      → (bound_irqs k (irq_init k (fresh k s)).0 ≡ [])
        × ((irq_init k (fresh k s)).0.cfg.thread_control
            ≡ (load_config k s (fresh k s).cfg).0.thread_control)
  unfolding irq_init bound_irqs
  init-fresh s = ground arith

  -- The command `irq-watch` in a process of its own, with the thread control off in the settings
  -- that it reads: whatever the number of rounds, it has done what `irq_init` does and no more.
  pub cli_irq_watch-irq_init :
      (rounds : ℕ) (total : ℤ) (s : k.State)
      → is_zero (load_config k s (fresh k s).cfg).0.thread_control ≡ true
      → cli_irq_watch k rounds total (fresh k s) ≡ irq_init k (fresh k s)
  unfolding cli_irq_watch
  cli_irq_watch-irq_init rounds total s t =
      let init = init-fresh s in
      let off : is_zero (irq_init k (fresh k s)).0.cfg.thread_control ≡ true = rw init.1 t in
      let still = rounds_empty rounds total (irq_init k (fresh k s)).0 init.0 off in
      elim (Bool-cases
        (not (is_zero (irq_init k (fresh k s)).1) || is_off (irq_init k (fresh k s)).0.cfg)) [
          | inl e ↦ rw e refl
          | inr e ↦ rw (e, still) refl
        ]

module _ (k : Kernel) (masks : HasMasks k) (quiet : IsQuiet k masks) where
  open masks use {Shows, Accepts}

  exempt_all-Shows :
      (irq : ℤ) (now mask : Bytes) (tokens : List Bytes) (s : k.State)
      → Shows (mask_path irq) now s
      → Shows (mask_path irq) now (exempt_all k mask tokens s)
  unfolding exempt_all
  exempt_all-Shows irq now mask [] s h = h
  exempt_all-Shows irq now mask (token ∷ tokens) s h =
      exempt_all-Shows irq now mask tokens _ (quiet.taskset_shows irq now token mask s h)

  exempt_read-Shows :
      (irq : ℤ) (now mask : Bytes) (o : Option (List Bytes)) (s : k.State)
      → Shows (mask_path irq) now s
      → Shows (mask_path irq) now (exempt_read k mask o s)
  unfolding exempt_read
  exempt_read-Shows irq now mask none s h = h
  exempt_read-Shows irq now mask (some tokens) s h = exempt_all-Shows irq now mask tokens s h

  round-Shows :
      (total : ℤ) (m : Irqs k) (irq : ℤ) (now : Bytes)
      → Shows
          (mask_path irq)
          now
          (watch_list k (printf_d 16 m.cfg.target_core) (bound_irqs k m) m.kernel)
      → Shows (mask_path irq) now (watch_round k total m).kernel
  unfolding watch_round
  round-Shows total m irq now h = elim (Bool-cases (is_zero m.cfg.thread_control)) [
    | inl e ↦ rw e (rw (watch_list-bound_irqs k (printf_d 16 m.cfg.target_core) m) at h)
    | inr e ↦ rw e (
        exempt_read-Shows irq now (full_mask total) _ _
          (rw (watch_list-bound_irqs k (printf_d 16 m.cfg.target_core) m) at h))
  ]

  -- Every interrupt in the lists shows a mask of one line, the core is not the least number
  -- of an `int` and is one that the kernel takes, and the commands that are run leave the masks alone. Then after one round of
  -- `irq_watch` every interrupt in the lists shows the core, whatever had become of its mask.
  pub watch_round-Shows :
      (total : ℤ) (m : Irqs k)
      → IsShort m.cfg.target_core
      → Accepts (printf_d 16 m.cfg.target_core)
      → All (ShowsLine k masks m.kernel) (bound_irqs k m)
      → All
          (λ irq.
            Shows (mask_path irq) (printf_d 16 m.cfg.target_core) (watch_round k total m).kernel)
          (bound_irqs k m)
  watch_round-Shows total m short accepts h =
      every (bound_irqs k m)
        (watch_list_lem k masks _ (printf_d-IsLine _ short) accepts (bound_irqs k m) m.kernel h)
    where
      every :
          (irqs : List ℤ)
          → All
              (λ irq.
                Shows
                  (mask_path irq)
                  (printf_d 16 m.cfg.target_core)
                  (watch_list k (printf_d 16 m.cfg.target_core) (bound_irqs k m) m.kernel))
              irqs
          → All
              (λ irq.
                Shows
                  (mask_path irq)
                  (printf_d 16 m.cfg.target_core)
                  (watch_round k total m).kernel)
              irqs
      every [] g = tt
      every (irq ∷ irqs) (g, gs) =
          (round-Shows total m irq (printf_d 16 m.cfg.target_core) g, every irqs gs)
