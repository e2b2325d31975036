-- ===== src/Lib.antt =====
-- x3d-toggle sets the mode of the 3D cache of AMD X3D processors: a daemon that serves requests on
-- a local socket and polls for games, and a command line that talks to it. The program brings its
-- own C library (src/libc.c).
--
-- The modules, and the code that each is about:
--  Prelude        bytes, lists, tests and integers that the others share
--  Libc           src/libc.c: strings, numbers, memory, sysctl, getenv and execvp, and in
--                 Libc.Syscalls the functions that make a system call; scripts/framework/xui.sh: "%s"
--                 and "%d" of printf_sn
--  Lines          the pointer loop over the lines of a buffer, of config.c, games.c, irq.c
--  Kernel         what the system calls answer, as an interface; Kernel.Memory has two instances
--  Config         src/daemon/config.c: config_update, config_load, config_get, config_generate
--                 and the capabilities
--  Hardware       src/daemon/modes.c, src/daemon/cppc.c, src/affinity.c and src/scheduler.c
--  Errors         the results of src/include/error.h that these use
--  Socket         src/socket.c: socket_setup; socket_handle, one branch for each request
--  Polling        src/daemon/polling/polling.c: polling_run
--  Games          src/games.c: games_load, games_match, game_add, game_remove
--  Irq            src/irq.c: the settings, the interrupts of a device, their masks, the binding, the
--                 teardown, and the rounds of irq_watch
--  Systemd        src/systemd.c: the calls of systemctl, daemon_restore and daemon_failsafe
--  Client         src/worker.c: socket_send; the commands of src/daemon/modes.c, src/daemon/cppc.c,
--                 src/daemon/config.c, src/daemon/daemon.c and src/run.c that send requests; in
--                 Client.Service those that run systemctl or a script, in Client.Watchlist those that
--                 add and remove a game
--  Cli            src/cli/cli.c: the table of the commands; src/toggle.c: the entry point and the help
--  Diagnosis      src/daemon/diag.c: the health of the eBPF object, the commands that run a script
--  Detection      src/daemon/steam.h, scan_pid and detect_game of src/daemon/polling/polling.c, and
--                 the counter of src/daemon/bpf/bpf-user.c
--  Journal        src/error.c: the tables of messages, journal_get, and the warnings that are kept
--                 between buffer_set and buffer_flush
--  MainLoop       src/daemon/daemon.c: a round of the loop, the rounds one after the other with the
--                 signals between them, and the entry point with what is done before and behind the
--                 loop; src/systemd.c: sig_handler
--  Status         src/status.c: stats, status_cpu and daemon_status
--  Tests          the theorems at concrete inputs
--
-- A C string is the list of the bytes from a pointer on; the end of the list stands for the final
-- NUL, and a 0 inside the list ends the string too. A null pointer is `none`. Where pointers
-- overlap or a write can leave its buffer, memory is a function from addresses to bytes
-- (Libc.Memory). An `int` is a ℤ; atoi wraps at 32 bits. The state of a part is a record
-- (Hardware.Modes.Machine, Socket.State.Daemon), an operation takes it and gives it back.
-- socket_handle and Config share the kernel's state: a request that saves a setting writes the file
-- that config_load reads. A command of the client runs on a World, a daemon that listens or none:
-- its request goes through socket_handle.
--
-- The system calls and the generated code are parameters: the record Kernel (open with one read or
-- write, the reads of a whole file, a directory, access, unlink, mkdir, system, fork with execve
-- and waitpid), the CONFIG_ macros and the paths of the build, the topology of build/ccd.h and the
-- function ccd, libbpf, the symbols of build/xui.c, and the conversions of `double`. A program that
-- may start or stop the daemon is the parameter `spawn` on the whole World, a wait is `pause`, and
-- a system call by its number and registers is `syscall`; the calls of socket_setup are the record
-- Socket.Setup.Sockets. The hypotheses on them are the records Kernel.IsRegular, a file that gives
-- back what is written to it; Kernel.IsNode, the node of the driver amd_x3d_vcache, which takes the
-- names of its two modes and shows the mode that is set on a line of its own; Irq.Nodes.HasMasks,
-- the files of /proc/irq and the saved masks; and Irq.Teardown.IsQuiet, that taskset, udevadm when
-- it loads its rules, and the removal of the file of the rules leave the masks alone.
--
-- The loops of the source run over strings and arrays and are structural recursion here. Fuel
-- stands for the rounds of Lines.Walk.walk, for which one more than the bytes of the buffer is
-- enough, for those of Irq.Watch.exempt_tokens, for which 512 are, for those of
-- Detection.scan_environ, for which the 4095 bytes of the buffer are, and for those of
-- Libc.Memory.Append, for which more than the length of the strings is. The five attempts of
-- cli_daemon_enable are the number that the source counts down. The endless loop of irq_watch is
-- run for a number of rounds. The recursion of itoa is on the well-founded order of ℕ.
--
-- Not modelled: signals that come before the loop or within one of its rounds, which here come
-- between two rounds, init_signals and notify_ready (src/systemd.c), the commands that print, draw
-- or wait (src/cli/dialog.c, src/cli/misc.c, src/stress.c, src/server.c, src/sysfs.c, irq_status,
-- cli_config_list, cli_advanced_config), the loader of the eBPF program, the lines that the journal
-- (src/error.c) writes, and the GTK window. These are left for their size, or because they only
-- draw, print or run other programs. The journal entries and the debug output of the modelled
-- operations are left out.
mod Prelude
pub mod Libc
pub mod Lines
pub mod Journal
pub mod Kernel
pub mod Config
pub mod Errors
pub mod Hardware
pub mod Irq
pub mod Socket
pub mod Systemd
pub mod Diagnosis
pub mod Cli
pub mod Client
pub mod Polling
pub mod Games
pub mod Detection
pub mod MainLoop
pub mod Status
mod Tests
