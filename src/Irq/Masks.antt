-- ===== src/Irq/Masks.antt =====
-- src/irq.c: the mask of one interrupt. It is saved to a file before it is changed, and put back
-- from there.
use x3d_toggle_main.Prelude.{
  Option, none, some, List, [], ◌∷◌, ◌++◌, if◌then◌else◌, ℤ, negsuc, Bytes, codes,
}
use x3d_toggle_main.Libc.Bounded.{printf_d}
use x3d_toggle_main.Errors.{err_success}
use x3d_toggle_main.Kernel.{Kernel, wronly_create_trunc}
use x3d_toggle_main.Irq.Config.{read_file_line, write_file}

abbrev pub err_irq_bind : ℤ
err_irq_bind = negsuc 39

abbrev pub irq_state_dir : Bytes
irq_state_dir = codes "/run/x3d-toggle"

-- the paths of an interrupt; none reaches the size of the buffer it is printed to
unfoldable pub mask_path : ℤ → Bytes
mask_path irq = codes "/proc/irq/" ++ printf_d 64 irq ++ codes "/smp_affinity_list"

unfoldable pub orig_path : ℤ → Bytes
orig_path irq = irq_state_dir ++ codes "/irq_orig_" ++ printf_d 64 irq

module _ (k : Kernel) where
  unfoldable pub save_mask : ℤ → k.State → Option Bytes → k.State
  save_mask irq s none = s
  save_mask irq s (some mask) =
      (k.write_file wronly_create_trunc (orig_path irq) mask (k.mkdir irq_state_dir s).0).0

  unfoldable pub save_original_mask : ℤ → k.State → k.State
  save_original_mask irq s = save_mask irq s (read_file_line k (mask_path irq) 64 s)

  unfoldable pub apply_affinity : ℤ → ℤ → k.State → k.State × ℤ
  apply_affinity irq core s =
      let wrote = write_file k (mask_path irq) (printf_d 16 core) (save_original_mask irq s) in
      (wrote.0, if wrote.1 then err_success else err_irq_bind)

  unfoldable pub restore_mask : ℤ → k.State → Option Bytes → k.State
  restore_mask irq s none = s
  restore_mask irq s (some mask) = k.unlink (orig_path irq) (write_file k (mask_path irq) mask s).0

  unfoldable pub restore_affinity : ℤ → k.State → k.State
  restore_affinity irq s = restore_mask irq s (read_file_line k (orig_path irq) 64 s)

  unfoldable pub apply_list : List ℤ → ℤ → k.State → k.State
  apply_list [] core s = s
  apply_list (irq ∷ irqs) core s = apply_list irqs core (apply_affinity irq core s).0

  -- `for (int i = 0; i < lists[l]->count; i++) restore_affinity(…)`
  unfoldable pub restore_list : List ℤ → k.State → k.State
  restore_list [] s = s
  restore_list (irq ∷ irqs) s = restore_list irqs (restore_affinity irq s)
