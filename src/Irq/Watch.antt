-- ===== src/Irq/Watch.antt =====
-- src/irq.c: one round of the loop of `irq_watch`, which never ends. `total_cores` is what `ccd` of
-- the generated build/ccd.c counts.
use x3d_toggle_main.Prelude.{
  ℕ, zero, suc, not, ◌||◌, Option, none, some, List, [], ◌∷◌, ◌++◌, ◌==◌, if◌then◌else◌, ℤ, pos,
  negsuc, Bytes, codes, drop, length,
}
use x3d_toggle_main.Libc.Bounded.{printf_s, printf_d}
use x3d_toggle_main.Libc.Strings.Equal.{is_zero, str_eq}
use x3d_toggle_main.Kernel.{Kernel}
use x3d_toggle_main.Irq.Config.{read_file_line, write_file}
use x3d_toggle_main.Irq.Masks.{mask_path}
use x3d_toggle_main.Irq.Bind.{Irqs, is_off, irq_init}

-- "0-%d" of the last core
unfoldable pub full_mask : ℤ → Bytes
full_mask (pos zero) = codes "0"
full_mask (pos (suc n)) = printf_s 32 (codes "0-" ++ printf_d 32 (pos n))
full_mask (negsuc _) = codes "0"

-- `while (*ex && *ex != ',' && *ex != ' ' && j < 63)`, with room for `n` bytes
unfoldable pub exempt_token : ℕ → Bytes → Bytes
exempt_token zero ex = []
exempt_token (suc n) [] = []
exempt_token (suc n) (c ∷ ex) =
    if c == 0 || c == b',' || c == b' ' then [] else c ∷ exempt_token n ex

-- `if (*ex == ',' || *ex == ' ') ex++`
unfoldable pub skip_separator : Bytes → Bytes
skip_separator [] = []
skip_separator (c ∷ ex) = if c == b',' || c == b' ' then ex else c ∷ ex

abbrev pub put_token : Bytes → Option (List Bytes) → Option (List Bytes)
put_token token none = none
put_token token (some tokens) = some (if length token == 0 then tokens else token ∷ tokens)

-- The tokens of the text, the empty ones left out. Fuel stands for `while (ex && *ex)`: `none` where
-- the loop has not ended.
unfoldable pub exempt_tokens : ℕ → Bytes → Option (List Bytes)
exempt_tokens zero ex = none
exempt_tokens (suc fuel) [] = some []
exempt_tokens (suc fuel) (c ∷ ex) =
    let token = exempt_token 63 (c ∷ ex) in
    let rest = exempt_tokens fuel (skip_separator (drop (length token) (c ∷ ex))) in
    if c == 0 then some [] else put_token token rest

unfoldable pub exempt_command : Bytes → Bytes → Bytes
exempt_command token mask = printf_s 512 (
    codes "for p in $(pidof "
    ++ token
    ++ codes " 2>/dev/null); do "
    ++ codes "  taskset -p -c "
    ++ mask
    ++ codes " $p >/dev/null 2>&1; "
    ++ codes "done")

module _ (k : Kernel) where
  -- behind the read of the mask
  unfoldable pub reassert : ℤ → Bytes → k.State → Option Bytes → k.State
  reassert irq expected s none = s
  reassert irq expected s (some current) =
      if str_eq current expected then s else (write_file k (mask_path irq) expected s).0

  unfoldable pub watch_list : Bytes → List ℤ → k.State → k.State
  watch_list expected [] s = s
  watch_list expected (irq ∷ irqs) s =
      watch_list expected irqs (reassert irq expected s (read_file_line k (mask_path irq) 64 s))

  unfoldable pub exempt_all : Bytes → List Bytes → k.State → k.State
  exempt_all mask [] s = s
  exempt_all mask (token ∷ tokens) s =
      exempt_all mask tokens (k.system (exempt_command token mask) s).0

  -- behind the loop over the text, where it ends
  unfoldable pub exempt_read : Bytes → Option (List Bytes) → k.State → k.State
  exempt_read mask none s = s
  exempt_read mask (some tokens) s = exempt_all mask tokens s

  unfoldable pub watch_round : ℤ → Irqs k → Irqs k
  watch_round total_cores m =
      let expected = printf_d 16 m.cfg.target_core in
      let gpu = watch_list expected m.gpu_irqs m.kernel in
      let nvme = watch_list expected m.nvme_irqs gpu in
      let usb = watch_list expected m.usb_irqs nvme in
      let nic = watch_list expected m.nic_irqs usb in
      let audio = watch_list expected m.audio_irqs nic in
      let tokens = exempt_tokens 512 m.cfg.thread_exempt in
      record m {
        kernel =
            if is_zero m.cfg.thread_control
            then audio
            else exempt_read (full_mask total_cores) tokens audio;
      }

  -- `n` rounds of `irq_watch`
  unfoldable pub irq_watch_rounds : ℕ → ℤ → Irqs k → Irqs k
  irq_watch_rounds zero total_cores m = m
  irq_watch_rounds (suc n) total_cores m =
      irq_watch_rounds n total_cores (watch_round total_cores m)

  -- `cli_irq_watch` after a number of rounds; it never returns from them
  unfoldable pub cli_irq_watch : ℕ → ℤ → Irqs k → Irqs k × ℤ
  cli_irq_watch rounds total_cores m =
      let started = irq_init k m in
      if not (is_zero started.1) || is_off started.0.cfg
      then started
      else (irq_watch_rounds rounds total_cores started.0, started.1)
