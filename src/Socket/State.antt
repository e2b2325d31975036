-- ===== src/Socket/State.antt =====
-- The state of the daemon that `socket_handle` reads and changes: the globals of src/systemd.c and
-- src/daemon/daemon.c, and the machine. What is not part of the program is in `Host`.
use x3d_toggle_main.Prelude.{ℕ, Bool, Option, List, [], ◌∷◌, Bytes, codes, ℤ, if◌then◌else◌}
use x3d_toggle_main.Libc.Strings.Equal.{is_zero}
use x3d_toggle_main.Kernel.{Kernel}
use x3d_toggle_main.Config.Fields.{Field}
use x3d_toggle_main.Config.Load.{Value, DaemonConfig, Reals}
use x3d_toggle_main.Hardware.{Topology}
use x3d_toggle_main.Hardware.Modes.{Machine}

pub record Host (reals : Reals) (k : Kernel) : Type 1 where
  pub cores : Topology
  -- DAEMON_CONF_PATH and the CONFIG_ macros of the build
  pub conf_path : Bytes
  pub build : Field → Value reals.Real
  -- `ccd` of the generated build/ccd.c: the mask of CCD0, the first core of CCD1, the cores
  pub ccd : k.State → Option (Bytes × ℤ × ℤ)
  -- the program for the kernel, by libbpf
  pub bpf_init : k.State → k.State × Bool
  pub bpf_cleanup : k.State → k.State
  -- "%.1f" of `printf_sn`
  pub print_real : reals.Real → Bytes
  -- what `current` holds before anything is assigned to it
  pub stale : Bytes

pub record Daemon (reals : Reals) (k : Kernel) : Type 0 where
  pub machine : Machine k
  pub cfg : DaemonConfig reals.Real
  pub active_override : ℕ
  pub active_keep : Bool
  pub wrapper_lock : ℤ
  pub bpf_active : Bool

-- What a request comes to: the texts that are sent and the state, or a fault of the process.
pub data Outcome (reals : Reals) (k : Kernel) : Type 0 where
  replied : List Bytes → Daemon reals k → Outcome reals k
  fault : Outcome reals k

module _ {reals : Reals} {k : Kernel} where
  unfoldable pub set_kernel : k.State → Daemon reals k → Daemon reals k
  set_kernel s d = record d { machine = record d.machine { kernel = s } }

  -- `send(client_fd, text, …)`, the only call in its branch
  abbrev pub answer : Bytes → Daemon reals k → Outcome reals k
  answer text d = replied (text ∷ []) d

  -- `ok ? "OK" : "ERR"`
  abbrev pub answer_if : Bool → Daemon reals k → Outcome reals k
  answer_if ok d = replied ((if ok then codes "OK" else codes "ERR") ∷ []) d

  -- the same of `ret == ERR_SUCCESS`, behind an operation of the kernel or of the machine
  abbrev pub answer_kernel : Daemon reals k → k.State × ℤ → Outcome reals k
  answer_kernel d (s, ret) = answer_if (is_zero ret) (set_kernel s d)

  abbrev pub answer_machine : Daemon reals k → Machine k × ℤ → Outcome reals k
  answer_machine d (m, ret) = answer_if (is_zero ret) (record d { machine = m })
