-- ===== src/Tests/Serving.antt =====
-- The daemon at concrete requests and rounds.
use x3d_toggle_main.Prelude.{
  ◌≡◌, ◌&&◌, refl, true, false, none, some, [], ◌∷◌, ◌++◌, Bytes, codes, pos, arith, ltb, leb,
  if◌then◌else◌, inr,
}
use x3d_toggle_main.Libc.Strings.{strcmp}
use x3d_toggle_main.Libc.Strings.Equal.{str_eq}
use x3d_toggle_main.Libc.Numbers.{long_max}
use x3d_toggle_main.Libc.Numbers.Strtol.{magnitude}
use x3d_toggle_main.Kernel.Memory.{Files, memory_kernel, x3d_kernel, x3d-IsNode}
use x3d_toggle_main.Hardware.Modes.{Machine, find_path}
use x3d_toggle_main.Kernel.{cache_side, frequency_side}
use x3d_toggle_main.Polling.{Settings, polling_run}
use x3d_toggle_main.Polling.Swap.{Shown, polling_run-swap}
use x3d_toggle_main.Socket.State.{Host, Daemon, replied}
use x3d_toggle_main.Socket.Commands.{prefix, set_park, set_mode, daemon_disable}
use x3d_toggle_main.Socket.Number.{faulted, refused, number, parse_number}
use x3d_toggle_main.Socket.Number.Range.{parse_number-Digits}
use x3d_toggle_main.Socket.Handle.{serve, socket_handle}
use x3d_toggle_main.Socket.Dispatch.{socket_handle-serve}
use x3d_toggle_main.Socket.Invariant.Kept.{Leads, Keeps}
use x3d_toggle_main.Socket.Invariant.{serve-Keeps}
use x3d_toggle_main.Socket.Modes.{handle_toggle}
use x3d_toggle_main.Socket.Modes.Toggle.{handle_toggle-other}
use x3d_toggle_main.MainLoop.{Event, Loop, stopped, round}
use x3d_toggle_main.MainLoop.Stop.{round-disable}
use x3d_toggle_main.Tests.Settings.{text_reals, build, config, host, daemon}

socket_handle-serve_example :
    socket_handle text_reals memory_kernel host
      (some ((prefix set_park ++ codes "1") ++ codes "\nPING"))
      daemon
    ≡ serve text_reals memory_kernel host set_park (codes "1") daemon
socket_handle-serve_example =
    socket_handle-serve text_reals memory_kernel host daemon set_park (codes "1") (codes "\nPING")
      ((omega arith, omega arith, omega arith, omega arith), tt) (inr (inr refl))

serve-Keeps_example :
    Leads text_reals memory_kernel host false
      (Keeps text_reals memory_kernel host set_mode daemon)
      (serve text_reals memory_kernel host set_mode (codes "swap") daemon)
serve-Keeps_example = serve-Keeps text_reals memory_kernel host set_mode (codes "swap") daemon

parse_number-Digits_example : parse_number (codes "9223372036854775808") ≡ (
    let n = magnitude (codes "9223372036854775808") in
    if leb n 2147483647 then number (pos n) else if leb n long_max then refused else faulted)
parse_number-Digits_example = parse_number-Digits b'9' (codes "223372036854775808") (omega arith)

abbrev node : Bytes
node = codes "/n"

abbrev shows_cache : Files
shows_cache = λ q. some (codes "cache\n")

abbrev machine : Machine x3d_kernel
machine = record { kernel = shows_cache; x3d_path_cache = some node }

found : find_path x3d_kernel machine ≡ some node
unfolding find_path
found = refl

abbrev manual : Settings
manual = record { active_override = 0; wrapper_lock = pos 0; daemon_state = codes "manual" }

abbrev automatic : Settings
automatic = record { active_override = 0; wrapper_lock = pos 0; daemon_state = codes "default" }

not_default : (ltb 0 3 && str_eq (codes "manual") (codes "default")) ≡ false
unfolding str_eq strcmp
not_default = refl

polling_run-swap_example :
    Shown x3d_kernel node
      (x3d-IsNode node)
      frequency_side
      (polling_run x3d_kernel manual false false [] (codes "frequency") machine).0
    × ((polling_run x3d_kernel manual false false [] (codes "frequency") machine).1.1
        ≡ codes "cache")
polling_run-swap_example =
    polling_run-swap x3d_kernel node (x3d-IsNode node) manual refl false false [] cache_side machine
      (refl, found) frequency_side not_default

abbrev pub node_host : Host text_reals x3d_kernel
node_host = record {
  cores = record { total_cores = 16; ccd1_start = 8 };
  conf_path = codes "/c";
  build = build;
  ccd = λ s. none;
  bpf_init = λ s. (s, true);
  bpf_cleanup = λ s. s;
  print_real = λ r. r;
  stale = [];
}

abbrev node_daemon : Daemon text_reals x3d_kernel
node_daemon = record {
  machine = machine;
  cfg = config;
  active_override = 0;
  active_keep = true;
  wrapper_lock = pos 0;
  bpf_active = false;
}

handle_toggle-other_example :
    (d1 : Daemon text_reals x3d_kernel) × (handle_toggle text_reals x3d_kernel node_host node_daemon
      ≡ replied (codes "OK" ∷ []) d1)
    × (d1.machine.kernel node ≡ some (codes "frequency\n"))
    × (d1.active_override ≡ 2)
handle_toggle-other_example =
    handle_toggle-other text_reals x3d_kernel node_host node (x3d-IsNode node) node_daemon
      cache_side found refl

abbrev event : Event
event = record {
  request = some (some ((prefix daemon_disable ++ []) ++ codes "\n"));
  ebpf_game = true;
  polled_game = false;
}

abbrev loop : Loop text_reals memory_kernel host (codes "/g")
loop = record { daemon = daemon; current = []; target = []; games = []; reload_flag = true }

round-disable_example :
    round text_reals memory_kernel host (codes "/g") event loop
    ≡ stopped (record loop { daemon = record daemon { active_keep = false } })
round-disable_example =
    round-disable text_reals memory_kernel host (codes "/g") event loop [] (codes "\n") tt
      (inr (inr refl)) refl refl
