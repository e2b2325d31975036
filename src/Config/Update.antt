-- ===== src/Config/Update.antt =====
-- src/daemon/config.c: `config_update`, which rewrites the configuration file with one key set.
pub mod Laws
use x3d_toggle_main.Prelude.{
  ℕ, ◌-◌, Bool, true, false, ◌&&◌, ◌||◌, Option, none, some, List, [], ◌∷◌, ◌++◌, ◌==◌,
  if◌then◌else◌, String, Bytes, codes, cstr, deref, drop, ℤ,
}
use x3d_toggle_main.Libc.Strings.{strlen}
use x3d_toggle_main.Libc.Strings.Equal.{starts_with}
use x3d_toggle_main.Libc.Bounded.{strlcat_local}
use x3d_toggle_main.Lines.{split_lines}
use x3d_toggle_main.Kernel.{Kernel, wronly_trunc}

-- `sizeof(buf)`, and the size that every `strlcat_local` is given
abbrev pub buffer_size : ℕ
buffer_size = 8192

-- `strncmp(line, key, strlen(key)) == 0 && line[strlen(key)] == '='`
unfoldable pub has_key : Bytes → Bytes → Bool
has_key key line = starts_with line key && deref (drop (strlen (some key)) line) == b'='

-- one call, on the text that `out` holds
abbrev pub append : Bytes → Bytes → Bytes
append out src = (strlcat_local out src buffer_size).0

unfoldable pub append_setting : Bytes → Bytes → Bytes → Bytes
append_setting key val out = append (append (append (append out key) (b'=' ∷ [])) val) (b'\n' ∷ [])

unfoldable pub append_line : Bytes → Bytes → Bytes
append_line line out = append (append out line) (b'\n' ∷ [])

-- The loop over the lines, with `out` and `found`, and the setting put behind them if not found.
unfoldable pub rewrite_lines : Bytes → Bytes → List Bytes → Bytes → Bool → Bytes
rewrite_lines key val [] out found = if found then out else append_setting key val out
rewrite_lines key val (line ∷ lines) out found =
    let hit = has_key key line in
    rewrite_lines key val lines (if hit then append_setting key val out else append_line line out)
      (found || hit)

-- What is written to the file when `buf` was read from it.
unfoldable pub update_text : Bytes → Bytes → Bytes → Bytes
unfolding rewrite_lines has_key append_setting append_line
update_text key val buf = rewrite_lines key val (split_lines (cstr buf)) [] false

-- behind the read; `n <= 0` returns early
unfoldable pub write_back : (k : Kernel) → Bytes → Bytes → Bytes → Option Bytes → k.State → k.State
write_back k path key val none s = s
write_back k path key val (some []) s = s
write_back k path key val (some (c ∷ buf)) s =
    (k.write_file wronly_trunc path (update_text key val (c ∷ buf)) s).0

-- `path` is DAEMON_CONF_PATH, which the build chooses.
unfoldable pub config_update : (k : Kernel) → Bytes → Bytes → Bytes → k.State → k.State
config_update k path key val s = write_back k path key val (k.read_file path (buffer_size - 1) s) s
