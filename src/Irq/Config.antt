-- ===== src/Irq/Config.antt =====
-- src/irq.c: the configuration that the binding of interrupts reads from the daemon's file, and the
-- helpers on files that it shares.
use x3d_toggle_main.Prelude.{
  ℕ, ◌-◌, Bool, ◌&&◌, ◌||◌, Option, none, some, [], ◌∷◌, ◌++◌, ◌==◌, if◌then◌else◌, String, ℤ, pos,
  negsuc, Bytes, codes, cstr, take, drop, length,
}
use x3d_toggle_main.Libc.Numbers.{atoi}
use x3d_toggle_main.Libc.Bounded.{printf_s}
use x3d_toggle_main.Libc.Strings.{strstr}
use x3d_toggle_main.Errors.{err_success, is_positive}
use x3d_toggle_main.Kernel.{Kernel, wronly, exists}

abbrev pub err_conf : ℤ
err_conf = negsuc 29

-- the bytes without the ends of line at their end
unfoldable pub trim_eol : Bytes → Bytes
trim_eol [] = []
trim_eol (c ∷ s) =
    let rest = trim_eol s in if length rest == 0 && (c == b'\n' || c == b'\r') then [] else c ∷ rest

-- what `read_file_line` makes of a read: `none` stands for -1
unfoldable pub line_read : Option Bytes → Option Bytes
line_read none = none
line_read (some []) = none
line_read (some (c ∷ s)) = some (cstr (trim_eol (c ∷ s)))

-- whether `write_file` returns 0
unfoldable pub was_written : Option ℤ → Bool
was_written none = Bool.false
was_written (some n) = is_positive n

module _ (k : Kernel) where
  unfoldable pub read_file_line : Bytes → ℕ → k.State → Option Bytes
  read_file_line path len s = line_read (k.read_file path (len - 1) s)

  unfoldable pub write_file : Bytes → Bytes → k.State → k.State × Bool
  write_file path val s =
      let wrote = k.write_file wronly path val s in (wrote.0, was_written wrote.1)

  unfoldable pub file_exists : Bytes → k.State → Bool
  file_exists path s = k.access exists path s

-- the key and its "=", as they are searched for
unfoldable pub search_key : Bytes → Bytes
search_key key = printf_s 128 (key ++ b'=' ∷ [])

-- behind the key that is found
unfoldable pub number_at : Bytes → Option Bytes → ℤ
number_at search none = pos 0
number_at search (some p) = atoi (drop (length search) p)

unfoldable pub parse_conf_int : Bytes → String → ℤ
parse_conf_int haystack key =
    let search = search_key (codes key) in number_at search (strstr (some haystack) (some search))

-- `while (p[i] && p[i] != '\n' && p[i] != '\r')`
unfoldable pub value_line : Bytes → Bytes
value_line [] = []
value_line (c ∷ p) = if c == 0 || c == b'\n' || c == b'\r' then [] else c ∷ value_line p

unfoldable pub text_at : Bytes → ℕ → Option Bytes → Bytes
text_at search len none = []
text_at search len (some p) = take (len - 1) (value_line (drop (length search) p))

-- the string that is put into `out`
unfoldable pub parse_conf_str : Bytes → String → ℕ → Bytes
parse_conf_str haystack key len =
    let search = search_key (codes key) in text_at search len (strstr (some haystack) (some search))

pub record IrqConfig : Type 0 where
  pub target_core : ℤ
  pub irq_enable : ℤ
  pub irq_pinning : ℤ
  pub irq_gpu : ℤ
  pub irq_nvme : ℤ
  pub irq_usb : ℤ
  pub irq_nic : ℤ
  pub irq_audio : ℤ
  pub irq_coalesce : ℤ
  pub irq_watch : ℤ
  pub thread_control : ℤ
  pub thread_cap : ℤ
  pub thread_exempt : Bytes

-- The settings of a text. `parse_conf_str` puts the value of IRQ_CUSTOM into the very buffer that
-- holds the text, so THREAD_EXEMPT is looked for in that value.
unfoldable pub parsed_config : Bytes → IrqConfig
parsed_config buf =
    let custom = parse_conf_str buf "IRQ_CUSTOM" 4096 in
    record {
      target_core = atoi custom;
      irq_enable = parse_conf_int buf "IRQ_ENABLE";
      irq_pinning = parse_conf_int buf "IRQ_PINNING";
      irq_gpu = parse_conf_int buf "IRQ_GPU";
      irq_nvme = parse_conf_int buf "IRQ_NVME";
      irq_usb = parse_conf_int buf "IRQ_USB";
      irq_nic = parse_conf_int buf "IRQ_NIC";
      irq_audio = parse_conf_int buf "IRQ_AUDIO";
      irq_coalesce = parse_conf_int buf "IRQ_COALESCE";
      irq_watch = parse_conf_int buf "IRQ_WATCH";
      thread_control = parse_conf_int buf "THREAD_CONTROL";
      thread_cap = parse_conf_int buf "THREAD_CAP";
      thread_exempt = parse_conf_str custom "THREAD_EXEMPT" 512;
    }

-- behind the read: the settings and the result
unfoldable pub config_read : IrqConfig → Option Bytes → IrqConfig × ℤ
config_read cfg none = (cfg, err_conf)
config_read cfg (some []) = (cfg, err_conf)
config_read cfg (some (c ∷ s)) = (parsed_config (cstr (c ∷ s)), err_success)

unfoldable pub load_config : (k : Kernel) → k.State → IrqConfig → IrqConfig × ℤ
load_config k s cfg = config_read cfg (k.read_file (codes "/etc/x3d-toggle.d/daemon.conf") 4095 s)

-- `atoi` of the file of the target core, or 0
unfoldable pub core_line : Option Bytes → ℤ
core_line none = pos 0
core_line (some line) = atoi line

-- `switch (g_cfg.irq_pinning)`
unfoldable pub resolve_target_core : (k : Kernel) → k.State → IrqConfig → ℤ
resolve_target_core k s cfg = elim cfg.irq_pinning [
  | pos n ↦
      if n == 1
      then core_line (read_file_line k (codes "/run/x3d-toggle/irq_target_core") 16 s)
      else if n == 2
      then cfg.target_core
      else if n == 3
      then negsuc 0
      else pos 0
  | negsuc _ ↦ pos 0
]
