-- ===== src/Tests/Settings.antt =====
-- The configuration and the list of games at concrete files.
use x3d_toggle_main.Prelude.{
  ℕ, zero, suc, cstr, ◌≡◌, ◌≤◌, ◌<◌, ◌-◌, refl, true, false, none, some, [], ◌∷◌, Bytes, codes,
  take, length, pos, arith,
}
use x3d_toggle_main.Libc.Strings.{strcmp, strncmp, strlen}
use x3d_toggle_main.Libc.Strings.Equal.{str_eq, starts_with}
use x3d_toggle_main.Libc.Numbers.{atoi}
use x3d_toggle_main.Lines.{split_lines, join_lines}
use x3d_toggle_main.Kernel.Memory.{Files, memory_kernel, memory-IsRegular}
use x3d_toggle_main.Config.Fields.{
  Field, kind, key_name, dev_enable, polling_interval, affinity_level,
}
use x3d_toggle_main.Config.Update.{buffer_size, has_key, config_update}
use x3d_toggle_main.Config.Update.Laws.{updated, updated_lines}
use x3d_toggle_main.Config.Load.{
  Reals, Value, int, DaemonConfig, same_field, find_field, load_value, config_load,
}
use x3d_toggle_main.Config.RoundTrip.{config_load-config_update, config_load-config_update_others}
use x3d_toggle_main.Games.Edit.{game_add, overrun, file_lines}
use x3d_toggle_main.Games.Edit.Overrun.{game_add-overrun}
use x3d_toggle_main.Socket.State.{Host, Daemon}
use x3d_toggle_main.Socket.Settings.{live_fields, save, set_live}
use x3d_toggle_main.Socket.Settings.Persist.{Fits, is_live, set_live-persists}

abbrev pub text_reals : Reals
text_reals = record { Real = Bytes; atof = λ t. t; cast = atoi }

abbrev conf : Bytes
conf = codes "/c"

abbrev old : Bytes
old = codes "DEV_ENABLE=0\nX=1\n"

abbrev pub files : Files
files = λ q. some old

abbrev pub build : Field → Value Bytes
build f = int (pos 2)

abbrev pub config : DaemonConfig Bytes
config = record { field = build; capabilities = 0 }

fits : length (updated (key_name dev_enable) (codes "1") (take (buffer_size - 1) old)) ≤ 4095
unfolding updated updated_lines split_lines join_lines has_key key_name starts_with strncmp strlen
    cstr
fits = omega arith

loaded : same_field dev_enable affinity_level ≡ false
unfolding same_field str_eq strcmp key_name
loaded = refl

differs : same_field polling_interval dev_enable ≡ false
unfolding same_field str_eq strcmp key_name
differs = refl

config_load-config_update_example :
    (config_load text_reals memory_kernel conf build
        (config_update memory_kernel conf (key_name dev_enable) (codes "1") files)
        config).field
      dev_enable
    ≡ load_value text_reals (kind dev_enable) (codes "1")
config_load-config_update_example =
    config_load-config_update text_reals memory_kernel conf (memory-IsRegular conf) files b'D'
      (codes "EV_ENABLE=0\nX=1\n") refl dev_enable (codes "1") (omega arith) (omega arith) fits
      loaded build config

config_load-config_update_others_example :
    (config_load text_reals memory_kernel conf build
        (config_update memory_kernel conf (key_name dev_enable) (codes "1") files)
        config).field
      polling_interval
    ≡ (config_load text_reals memory_kernel conf build files config).field polling_interval
config_load-config_update_others_example =
    config_load-config_update_others text_reals memory_kernel conf (memory-IsRegular conf) files
      b'D' (codes "EV_ENABLE=0\nX=1\n") refl dev_enable (codes "1") (omega arith) (omega arith) fits
      loaded (omega arith) build config polling_interval differs

abbrev pub host : Host text_reals memory_kernel
host = record {
  cores = record { total_cores = 16; ccd1_start = 8 };
  conf_path = conf;
  build = build;
  ccd = λ s. none;
  bpf_init = λ s. (s, true);
  bpf_cleanup = λ s. s;
  print_real = λ r. r;
  stale = [];
}

abbrev pub daemon : Daemon text_reals memory_kernel
daemon = record {
  machine = record { kernel = files; x3d_path_cache = none };
  cfg = config;
  active_override = 0;
  active_keep = true;
  wrapper_lock = pos 0;
  bpf_active = false;
}

live : is_live dev_enable ≡ true
unfolding str_eq strcmp key_name find_field live_fields
live = refl

dev-Fits : Fits (kind dev_enable) (codes "1")
unfolding kind
dev-Fits = tt

set_live-persists_example :
    (set_live text_reals memory_kernel host dev_enable
        (codes "1")
        (save text_reals memory_kernel host (key_name dev_enable) (codes "1") daemon)).cfg.field
      dev_enable
    ≡ (config_load text_reals memory_kernel conf build
          (set_live text_reals memory_kernel host dev_enable (codes "1") (
            save text_reals memory_kernel host
              (key_name dev_enable)
              (codes "1")
              daemon)).machine.kernel
          (set_live text_reals memory_kernel host dev_enable (codes "1") (
            save text_reals memory_kernel host (key_name dev_enable) (codes "1") daemon)).cfg).field
        dev_enable
set_live-persists_example =
    set_live-persists text_reals memory_kernel host (memory-IsRegular conf) daemon b'D'
      (codes "EV_ENABLE=0\nX=1\n") refl dev_enable (codes "1") (omega arith) (omega arith) fits live
      loaded refl dev-Fits

-- a file of 70 empty lines
abbrev newlines : ℕ → Bytes
newlines zero = []
newlines (suc n) = b'\n' ∷ newlines n

abbrev long_files : Files
long_files = λ q. some (newlines 70)

long : 64 < length (file_lines (memory_kernel.read_file conf 16383 long_files))
unfolding file_lines split_lines cstr
long = omega arith

game_add-overrun_example : game_add memory_kernel conf true (codes "game") long_files ≡ overrun
game_add-overrun_example = game_add-overrun memory_kernel conf (codes "game") true long_files long
