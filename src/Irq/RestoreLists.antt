-- ===== src/Irq/RestoreLists.antt =====
-- `apply_list` followed by `restore_list`, and what becomes of the saved masks when the interrupts
-- are bound a second time in between.
use x3d_toggle_main.Prelude.{sym, List, [], ◌∷◌, ℤ, Bytes, All}
use x3d_toggle_main.Libc.Bounded.{printf_d}
use x3d_toggle_main.Kernel.{Kernel}
use x3d_toggle_main.Irq.Masks.{
  mask_path, orig_path, apply_affinity, restore_affinity, apply_list, restore_list,
}
use x3d_toggle_main.Irq.Nodes.{IsLine, HasMasks}
use x3d_toggle_main.Irq.Apart.{IsApart, AllApart, AllDifferent, different-AllApart, printf_d-IsLine}
use x3d_toggle_main.Libc.Bounded.Decimal.{IsShort}
use x3d_toggle_main.Irq.Restore.{apply-saves, restore-shows, apply-other, restore-other}

IsApart-sym : (irq other : ℤ) → IsApart irq other → IsApart other irq
IsApart-sym irq other (a, b) = (λ e. a (sym e), λ e. b (sym e))

module _ (k : Kernel) (masks : HasMasks k) where
  open masks use {Shows, Saved, Accepts}

  -- Every interrupt of the list shows the mask that `mask` gives for it.
  abbrev pub ShowAll : (ℤ → Bytes) → k.State → List ℤ → Type 0
  ShowAll mask s = All (λ irq. Shows (mask_path irq) (mask irq) s)

  -- The mask that `mask` gives for an interrupt is one line, and the kernel takes it.
  abbrev pub GoodMasks : (ℤ → Bytes) → List ℤ → Type 0
  GoodMasks mask = All (λ irq. IsLine (mask irq) × Accepts (mask irq))

  -- Every interrupt of the list shows `now`, and its file keeps what `mask` gives for it.
  abbrev pub BoundAll : Bytes → (ℤ → Bytes) → k.State → List ℤ → Type 0
  BoundAll now mask s =
      All (λ irq. Shows (mask_path irq) now s × Saved (orig_path irq) (mask irq) s)

  ShowAll-apply :
      (mask : ℤ → Bytes) (irq core : ℤ) (s : k.State) (irqs : List ℤ)
      → All (IsApart irq) irqs
      → ShowAll mask s irqs
      → ShowAll mask (apply_affinity k irq core s).0 irqs
  ShowAll-apply mask irq core s [] a h = tt
  ShowAll-apply mask irq core s (j ∷ irqs) ((am, ao), a) (h, hs) = (
    (apply-other k masks irq j core (mask j) [] s am ao).0 h,
    ShowAll-apply mask irq core s irqs a hs,
  )

  BoundAll-restore :
      (now : Bytes) (mask : ℤ → Bytes) (irq : ℤ) (s : k.State) (irqs : List ℤ)
      → All (IsApart irq) irqs
      → BoundAll now mask s irqs
      → BoundAll now mask (restore_affinity k irq s) irqs
  BoundAll-restore now mask irq s [] a h = tt
  BoundAll-restore now mask irq s (j ∷ irqs) ((am, ao), a) ((h, g), hs) = (
    (
      (restore-other k masks irq j now [] s am ao).0 h,
      (restore-other k masks irq j [] (mask j) s am ao).1 g,
    ),
    BoundAll-restore now mask irq s irqs a hs,
  )

  apply_list-other :
      (irqs : List ℤ) (other core : ℤ) (now text : Bytes) (s : k.State)
      → All (IsApart other) irqs
      → Shows (mask_path other) now s
      → Saved (orig_path other) text s
      → Shows (mask_path other) now (apply_list k irqs core s)
        × Saved (orig_path other) text (apply_list k irqs core s)
  unfolding apply_list
  apply_list-other [] other core now text s a h g = (h, g)
  apply_list-other (irq ∷ irqs) other core now text s (ai, a) h g =
      let b = IsApart-sym other irq ai in
      let kept = apply-other k masks irq other core now text s b.0 b.1 in
      apply_list-other irqs other core now text _ a (kept.0 h) (kept.1 g)

  restore_list-other :
      (irqs : List ℤ) (other : ℤ) (now : Bytes) (s : k.State)
      → All (IsApart other) irqs
      → Shows (mask_path other) now s
      → Shows (mask_path other) now (restore_list k irqs s)
  unfolding restore_list
  restore_list-other [] other now s a h = h
  restore_list-other (irq ∷ irqs) other now s (ai, a) h =
      let b = IsApart-sym other irq ai in
      let kept = restore-other k masks irq other now [] s b.0 b.1 in
      restore_list-other irqs other now _ a (kept.0 h)

  pub apply_list-BoundAll :
      (irqs : List ℤ) (core : ℤ) (mask : ℤ → Bytes) (s : k.State)
      → AllApart irqs
      → GoodMasks mask irqs
      → Accepts (printf_d 16 core)
      → ShowAll mask s irqs
      → BoundAll (printf_d 16 core) mask (apply_list k irqs core s) irqs
  unfolding apply_list
  apply_list-BoundAll [] core mask s a g accepts h = tt
  apply_list-BoundAll (irq ∷ irqs) core mask s (ai, a) (gi, g) accepts (hi, h) =
      let first = apply-saves k masks irq core (mask irq) s hi gi.0 accepts in
      (
        apply_list-other irqs irq core (printf_d 16 core) (mask irq) _ ai first.0 first.1,
        apply_list-BoundAll irqs core mask _ a g accepts (ShowAll-apply mask irq core s irqs ai h),
      )

  pub restore_list-ShowAll :
      (irqs : List ℤ) (now : Bytes) (mask : ℤ → Bytes) (s : k.State)
      → AllApart irqs
      → GoodMasks mask irqs
      → BoundAll now mask s irqs
      → ShowAll mask (restore_list k irqs s) irqs
  unfolding restore_list
  restore_list-ShowAll [] now mask s a g h = tt
  restore_list-ShowAll (irq ∷ irqs) now mask s (ai, a) (gi, g) (hi, h) =
      let first = restore-shows k masks irq now (mask irq) s hi.0 hi.1 gi.0 gi.1 in
      (
        restore_list-other irqs irq (mask irq) _ ai first,
        restore_list-ShowAll irqs now mask _ a g (BoundAll-restore now mask irq s irqs ai h),
      )

  -- The interrupts of a list are numbers of an `int` of which no two are the same; they show masks
  -- of one line that the kernel takes, as it takes the number of the core. Then `apply_list` sets
  -- each of them to the core, and `restore_list` afterwards puts back the mask that each had.
  pub restore_list-apply_list :
      (irqs : List ℤ) (core : ℤ) (mask : ℤ → Bytes) (s : k.State)
      → AllDifferent irqs
      → GoodMasks mask irqs
      → Accepts (printf_d 16 core)
      → ShowAll mask s irqs
      → ShowAll (λ _. printf_d 16 core) (apply_list k irqs core s) irqs
        × ShowAll mask (restore_list k irqs (apply_list k irqs core s)) irqs
  restore_list-apply_list irqs core mask s d g accepts h =
      let a = different-AllApart irqs d in
      let bound = apply_list-BoundAll irqs core mask s a g accepts h in
      (shown irqs bound, restore_list-ShowAll irqs (printf_d 16 core) mask _ a g bound)
    where
      shown :
          (irqs' : List ℤ)
          → BoundAll (printf_d 16 core) mask (apply_list k irqs core s) irqs'
          → ShowAll (λ _. printf_d 16 core) (apply_list k irqs core s) irqs'
      shown [] b = tt
      shown (irq ∷ irqs') (b, bs) = (b.0, shown irqs' bs)

  core-GoodMasks :
      (core : ℤ)
      → IsShort core
      → Accepts (printf_d 16 core)
      → (irqs : List ℤ) → GoodMasks (λ _. printf_d 16 core) irqs
  core-GoodMasks core short accepts [] = tt
  core-GoodMasks core short accepts (irq ∷ irqs) =
      ((printf_d-IsLine core short, accepts), core-GoodMasks core short accepts irqs)

  -- The same, for a core that is not the least number of an `int`, with `apply_list` run twice
  -- before `restore_list`, as it is when `irq-bind` runs again: in the end every interrupt shows the
  -- core that it was bound to, whatever mask it had at first.
  pub restore_list_bound_twice :
      (irqs : List ℤ) (core : ℤ) (mask : ℤ → Bytes) (s : k.State)
      → AllDifferent irqs
      → GoodMasks mask irqs
      → IsShort core
      → Accepts (printf_d 16 core)
      → ShowAll mask s irqs
      → ShowAll
          (λ _. printf_d 16 core)
          (restore_list k irqs (apply_list k irqs core (apply_list k irqs core s)))
          irqs
  restore_list_bound_twice irqs core mask s d g short accepts h =
      let once = restore_list-apply_list irqs core mask s d g accepts h in
      let again = core-GoodMasks core short accepts irqs in
      (restore_list-apply_list irqs core (λ _. printf_d 16 core) _ d again accepts once.0).1
