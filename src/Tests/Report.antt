-- ===== src/Tests/Report.antt =====
-- The report of the status and the rounds of the main loop, at concrete states.
use x3d_toggle_main.Prelude.{
  ℕ, ◌≡◌, ◌≤◌, ◌<◌, ◌+◌, ◌^◌, refl, ap, true, false, none, some, [], ◌∷◌, Bytes, codes, pos, arith,
  length, length-append, take-all, Lacks, if◌then◌else◌, cstr,
}
use x3d_toggle_main.Libc.Chars.{toupper}
use x3d_toggle_main.Libc.Strings.Equal.{str_eq}
use x3d_toggle_main.Libc.Bounded.{itoa}
use x3d_toggle_main.Libc.Bounded.Decimal.{length-itoa}
use x3d_toggle_main.Kernel.Memory.{Files, memory_kernel}
use x3d_toggle_main.Config.Load.{text, DaemonConfig}
use x3d_toggle_main.Socket.State.{Daemon, set_kernel}
use x3d_toggle_main.Socket.Modes.{show_field}
use x3d_toggle_main.Client.{online}
use x3d_toggle_main.Status.{CpuStats}
use x3d_toggle_main.Status.Online.{IsState}
use x3d_toggle_main.Status.Report.{daemon_status}
use x3d_toggle_main.Status.Agrees.{shown_mode, daemon_status-agrees}
use x3d_toggle_main.Status.Sample.{stats, field_text, line_text, IsWide, stats-line}
use x3d_toggle_main.MainLoop.{Event, Loop, poll, reload}
use x3d_toggle_main.MainLoop.Startup.{prepare, daemon_main}
use x3d_toggle_main.MainLoop.Invariant.{SoundStanding, daemon_main-Sound}
use x3d_toggle_main.Socket.Setup.{Sockets, ipc_path}
use x3d_toggle_main.Tests.Settings
use x3d_toggle_main.Tests.Settings.{text_reals, host, files}

abbrev sample : CpuStats
sample = record {
  user = 1200;
  nice = 7;
  system = 450;
  idle = 90000;
  iowait = 31;
  irq = 0;
  softirq = 12;
}

abbrev zeros : CpuStats
zeros = record { user = 0; nice = 0; system = 0; idle = 0; iowait = 0; irq = 0; softirq = 0 }

sample-IsWide : IsWide sample
sample-IsWide = record {
  user = omega arith;
  nice = omega arith;
  system = omega arith;
  idle = omega arith;
  iowait = omega arith;
  irq = omega arith;
  softirq = omega arith;
}

length-field_text :
    (n m : ℕ) (rest : Bytes) → n < 2 ^ 31 → length rest ≤ m → length (field_text n rest) ≤ 12 + m
length-field_text n m rest h short =
    omega (arith, length-append (itoa (pos n)) rest, length-itoa (pos n) h, short)

abbrev behind_line : Bytes
behind_line = codes " 0 0 0\n"

length-sample : length (line_text sample behind_line) ≤ 255
length-sample =
    let p = field_text 12 behind_line in
    let q = field_text 0 p in
    let r = field_text 31 q in
    let t = field_text 90000 r in
    let u = field_text 450 t in
    let v = field_text 7 u in
    let g = length-field_text 12 7 behind_line (omega arith) (omega arith) in
    let f = length-field_text 0 19 p (omega arith) g in
    let e = length-field_text 31 31 q (omega arith) f in
    let d = length-field_text 90000 43 r (omega arith) e in
    let c = length-field_text 450 55 t (omega arith) d in
    let b = length-field_text 7 67 u (omega arith) c in
    let a = length-field_text 1200 79 v (omega arith) b in omega (arith, a)

abbrev proc_files : Files
proc_files = λ q. some (line_text sample behind_line)

sample-read :
    memory_kernel.read_file (codes "/proc/stat") 255 proc_files
    ≡ some (line_text sample behind_line)
sample-read = ap (λ t. some t) (take-all 255 (line_text sample behind_line) length-sample)

stats-line_example : stats memory_kernel zeros proc_files ≡ sample
stats-line_example =
    stats-line memory_kernel zeros sample behind_line proc_files sample-IsWide refl sample-read

-- every setting is a text
abbrev named_config : DaemonConfig Bytes
named_config = record { field = λ f. text (codes "default"); capabilities = 0 }

abbrev named_daemon : Daemon text_reals memory_kernel
named_daemon = record {
  machine = record { kernel = files; x3d_path_cache = none };
  cfg = named_config;
  active_override = 0;
  active_keep = true;
  wrapper_lock = pos 0;
  bpf_active = true;
}

default-IsState : IsState (codes "default")
default-IsState = record {
  no_nul = omega arith;
  no_bar = omega arith;
  no_semicolon = omega arith;
  no_o = omega arith;
  no_b = omega arith;
  short = omega arith;
}

default-clean : Lacks b';' (show_field text_reals memory_kernel host (text (codes "default")))
unfolding show_field cstr
default-clean = omega arith

daemon_status-agrees_example :
    let r = daemon_status text_reals memory_kernel host (codes "/c") false (online named_daemon) in
    (r.0 ≡ online named_daemon)
    × (r.1.daemon_state ≡ codes "DEFAULT")
    × (r.1.ipc_status ≡ codes "SOCKET ONLINE")
    × (r.1.d_mode ≡ shown_mode text_reals memory_kernel host (codes "DEFAULT"))
    × (r.1.ebpf_status ≡ (
        if str_eq (codes "DEFAULT") (codes "DEFAULT")
        then codes "eBPF (Active)"
        else codes "INACTIVE (MANUAL OVERRIDE)"))
unfolding toupper
daemon_status-agrees_example =
    daemon_status-agrees text_reals memory_kernel host (codes "/c") false named_daemon
      (codes "default") refl refl default-IsState (omega arith) default-clean default-clean

-- no request and no game
abbrev quiet : Event
quiet = record { request = none; ebpf_game = false; polled_game = false }

-- "SET_MODE swap", and a game
abbrev request_event : Event
request_event = record {
  request = some (some (codes "SET_MODE swap\n"));
  ebpf_game = true;
  polled_game = false;
}

abbrev sockets : Sockets memory_kernel
sockets = record {
  open_socket = λ s. (s, some 3);
  get_flags = λ fd s. pos 2;
  set_flags = λ fd flags s. (s, true);
  bind_path = λ fd path s. (s, true);
  listen_at = λ fd n s. (s, true);
  set_mode = λ path mode s. (s, true);
  close_socket = λ fd s. s;
}

-- the daemon in front of its loop
abbrev prepared : Loop text_reals memory_kernel host (codes "/g")
prepared = prepare text_reals memory_kernel host (codes "/g") sockets Settings.config [] [] files

abbrev unlinked : Files
unlinked = memory_kernel.unlink ipc_path prepared.daemon.machine.kernel

abbrev served : Loop text_reals memory_kernel host (codes "/g")
served = reload text_reals memory_kernel host (codes "/g") (
    poll text_reals memory_kernel host (codes "/g") quiet
      (record prepared { daemon = set_kernel unlinked prepared.daemon }))

daemon_main-Sound_example :
    SoundStanding text_reals memory_kernel host (codes "/g") sockets Settings.config [] [] (
      daemon_main text_reals memory_kernel host
        (codes "/g")
        sockets
        Settings.config
        []
        []
        (([], request_event) ∷ [])
        files)
daemon_main-Sound_example =
    daemon_main-Sound text_reals memory_kernel host (codes "/g") sockets Settings.config [] []
      (([], request_event) ∷ []) files
