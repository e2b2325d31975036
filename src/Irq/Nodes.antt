-- ===== src/Irq/Nodes.antt =====
-- What the binding of interrupts relies on: the files /proc/irq/<n>/smp_affinity_list of the
-- kernel, and the files of /run/x3d-toggle that keep the masks.
use x3d_toggle_main.Prelude.{ℕ, ◌<◌, ◌≡◌, ◌≢◌, some, [], ◌∷◌, ◌++◌, ℤ, Bytes, take, length, All}
use x3d_toggle_main.Kernel.{Kernel, wronly, wronly_create_trunc}
use x3d_toggle_main.Irq.Masks.{mask_path, orig_path, irq_state_dir}

-- A line of text that fits the buffers: not empty, shorter than 63 bytes, with no NUL and no end of
-- line in it.
abbrev pub IsLine : Bytes → Type 0
IsLine line = (line ≢ []) × (length line < 63) × All (λ c. (c ≢ 0) × (c ≢ b'\n') × (c ≢ b'\r')) line

-- `Shows path mask s`: the file of an interrupt's mask is there and shows `mask`, with a newline
-- behind it. `Saved path text s`: a file of the directory of the state holds `text`.
pub record HasMasks (k : Kernel) : Type 1 where
  pub Shows : Bytes → Bytes → k.State → Type 0
  pub Saved : Bytes → Bytes → k.State → Type 0
  -- the lists of cores that the kernel takes, and shows as they were written
  pub Accepts : Bytes → Type 0
  pub read_shows :
      (irq : ℤ) (mask : Bytes) (n : ℕ) (s : k.State)
      → Shows (mask_path irq) mask s
      → k.read_file (mask_path irq) n s ≡ some (take n (mask ++ b'\n' ∷ []))
  pub write_shows :
      (irq : ℤ) (mask new : Bytes) (s : k.State)
      → Shows (mask_path irq) mask s
      → Accepts new
      → Shows (mask_path irq) new (k.write_file wronly (mask_path irq) new s).0
  pub write_other :
      (irq other : ℤ) (mask new : Bytes) (s : k.State)
      → mask_path irq ≢ mask_path other
      → Shows (mask_path other) mask s
      → Shows (mask_path other) mask (k.write_file wronly (mask_path irq) new s).0
  pub write_saved :
      (irq other : ℤ) (text new : Bytes) (s : k.State)
      → Saved (orig_path other) text s
      → Saved (orig_path other) text (k.write_file wronly (mask_path irq) new s).0
  pub read_saved :
      (irq : ℤ) (text : Bytes) (n : ℕ) (s : k.State)
      → Saved (orig_path irq) text s
      → k.read_file (orig_path irq) n s ≡ some (take n text)
  pub create_saved :
      (irq : ℤ) (text : Bytes) (s : k.State)
      → Saved
          (orig_path irq)
          text
          (k.write_file wronly_create_trunc (orig_path irq) text (k.mkdir irq_state_dir s).0).0
  pub create_other :
      (irq other : ℤ) (text new : Bytes) (s : k.State)
      → orig_path irq ≢ orig_path other
      → Saved (orig_path other) text s
      → Saved
          (orig_path other)
          text
          (k.write_file wronly_create_trunc (orig_path irq) new (k.mkdir irq_state_dir s).0).0
  pub create_shows :
      (irq other : ℤ) (mask new : Bytes) (s : k.State)
      → Shows (mask_path other) mask s
      → Shows
          (mask_path other)
          mask
          (k.write_file wronly_create_trunc (orig_path irq) new (k.mkdir irq_state_dir s).0).0
  pub unlink_shows :
      (irq other : ℤ) (mask : Bytes) (s : k.State)
      → Shows (mask_path other) mask s
      → Shows (mask_path other) mask (k.unlink (orig_path irq) s)
  pub unlink_other :
      (irq other : ℤ) (text : Bytes) (s : k.State)
      → orig_path irq ≢ orig_path other
      → Saved (orig_path other) text s
      → Saved (orig_path other) text (k.unlink (orig_path irq) s)
