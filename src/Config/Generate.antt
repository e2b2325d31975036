-- ===== src/Config/Generate.antt =====
-- src/daemon/config.c: `config_generate`, which copies a file and puts config/irq.conf behind it.
-- The two writes to the new file are one write here, and config/irq.conf is another file.
use x3d_toggle_main.Prelude.{Option, none, some, [], ◌∷◌, ◌++◌, Bytes, codes, ℤ}
use x3d_toggle_main.Kernel.{Kernel, wronly_create_trunc}
use x3d_toggle_main.Errors.{err_success, err_io}

-- what is put behind the first 4095 bytes of the source
unfoldable pub irq_part : Option Bytes → Bytes
irq_part none = []
irq_part (some []) = []
irq_part (some (c ∷ buf)) = b'\n' ∷ c ∷ buf

written_result : Option ℤ → ℤ
written_result none = err_io
written_result (some n) = err_success

module _ (k : Kernel) where
  -- behind the read of the source
  unfoldable pub generate_from : Bytes → Option Bytes → k.State → k.State × ℤ
  unfolding written_result
  generate_from dest none s = (s, err_io)
  generate_from dest (some []) s = (s, err_io)
  generate_from dest (some (c ∷ buf)) s =
      let part = irq_part (k.read_file (codes "config/irq.conf") 4095 s) in
      let written = k.write_file wronly_create_trunc dest ((c ∷ buf) ++ part) s in
      (written.0, written_result written.1)

  unfoldable pub config_generate : Bytes → Bytes → k.State → k.State × ℤ
  config_generate src dest s = generate_from dest (k.read_file src 4095 s) s
