-- ===== src/MainLoop/Invariant.antt =====
-- What holds of the daemon after any requests, games and signals.
use x3d_toggle_main.Prelude.{
  ℕ, ◌≤◌, Bool, true, false, not, if◌then◌else◌, Option, none, some, List, [], ◌∷◌, Bytes, arith,
}
use x3d_toggle_main.Kernel.{Kernel}
use x3d_toggle_main.Config.Load.{Reals, DaemonConfig}
use x3d_toggle_main.Games.Load.Bounds.{GoodList, games_load-Good}
use x3d_toggle_main.Socket.State.{Host, Daemon, Outcome, replied, fault, set_kernel}
use x3d_toggle_main.Socket.Commands.{Command, request, argument, commands, find_command}
use x3d_toggle_main.Socket.Handle.{serve, serve_found, socket_handle}
use x3d_toggle_main.Socket.Invariant.Kept.{takes_number, Leads, Keeps}
use x3d_toggle_main.Socket.Invariant.{serve-Keeps}
use x3d_toggle_main.Socket.Setup.{Sockets, socket_setup}
use x3d_toggle_main.MainLoop.{
  Flags, sig_handler, Event, Loop, Round, stopped, goes_on, crashed, poll, reload, after_request,
  after_handle, serve_event, round,
}
use x3d_toggle_main.MainLoop.Run.{
  Run, running, finished, killed, faulted, flags_of, set_flags, deliver, after_round, after_signals,
  run,
}
use x3d_toggle_main.MainLoop.Startup.{
  Standing, not_started, left, serving, ended_by_failsafe, ended_by_fault, prepare, after_loop,
  enter_loop, daemon_main,
}

either : {A : Type 0} → (P : A → Type 0) (b : Bool) (x y : A) → P x → P y → P (if b then x else y)
either P true x y hx hy = hx
either P false x y hx hy = hy

module _ (reals : Reals) (k : Kernel) (host : Host reals k) (games_path : Bytes) where
  abbrev D : Type 0
  D = Daemon reals k

  abbrev L : Type 0
  L = Loop reals k host games_path

  -- The override is one that a mode has, and the names of the games are what `games_load` may give.
  pub record IsSound (l : L) : Type 0 where
    pub in_range : l.daemon.active_override ≤ 4
    pub games_good : GoodList l.games

  abbrev SoundOutcome : Outcome reals k → Type 0
  SoundOutcome fault = Unit
  SoundOutcome (replied texts d) = d.active_override ≤ 4

  abbrev SoundRound : Round reals k host games_path → Type 0
  SoundRound (stopped l) = IsSound l
  SoundRound (goes_on l) = IsSound l
  SoundRound crashed = Unit

  abbrev pub SoundRun : Run reals k host games_path → Type 0
  SoundRun (running l) = IsSound l
  SoundRun (finished l) = IsSound l
  SoundRun killed = Unit
  SoundRun faulted = Unit

  Leads-Sound :
      (c : Command) (d : D) (f : Bool) (o : Outcome reals k)
      → d.active_override ≤ 4
      → Leads reals k host f (Keeps reals k host c d) o
      → SoundOutcome o
  Leads-Sound c d f fault h l = tt
  Leads-Sound c d f (replied [] d1) h l = elim l [ ]
  Leads-Sound c d f (replied (t ∷ []) d1) h l = l.0 h
  Leads-Sound c d f (replied (t ∷ (u ∷ ts)) d1) h l = elim l [ ]

  found-Sound :
      (o : Option Command) (buf : Bytes) (d : D)
      → d.active_override ≤ 4
      → SoundOutcome (serve_found reals k host o buf d)
  unfolding serve_found
  found-Sound none buf d h = h
  found-Sound (some c) buf d h =
      Leads-Sound c d (takes_number reals k host c) (serve reals k host c (argument c buf) d) h
        (serve-Keeps reals k host c (argument c buf) d)

  handle-Sound :
      (received : Option Bytes) (d : D)
      → d.active_override ≤ 4
      → SoundOutcome (socket_handle reals k host received d)
  unfolding socket_handle
  handle-Sound none d h = h
  handle-Sound (some received) d h =
      let buf = request received in found-Sound (find_command buf commands) buf d h

  poll-Sound : (e : Event) (l : L) → IsSound l → IsSound (poll reals k host games_path e l)
  unfolding poll
  poll-Sound e l s = record { in_range = s.in_range; games_good = s.games_good }

  reload-Sound : (l : L) → IsSound l → IsSound (reload reals k host games_path l)
  unfolding reload
  reload-Sound l s =
      either IsSound l.reload_flag _ l
        (record {
          in_range = s.in_range;
          games_good = games_load-Good k games_path l.daemon.machine.kernel;
        })
        s

  after_request-Sound :
      (e : Event) (l : L) → IsSound l → SoundRound (after_request reals k host games_path e l)
  unfolding after_request
  after_request-Sound e l s =
      either SoundRound (not l.daemon.active_keep) (stopped l) _ s
        (reload-Sound (poll reals k host games_path e l) (poll-Sound e l s))

  after_handle-Sound :
      (e : Event) (l : L) (o : Outcome reals k)
      → IsSound l
      → SoundOutcome o
      → SoundRound (after_handle reals k host games_path e l o)
  unfolding after_handle
  after_handle-Sound e l fault s h = tt
  after_handle-Sound e l (replied texts d) s h =
      after_request-Sound e (record l { daemon = d })
        (record { in_range = h; games_good = s.games_good })

  serve_event-Sound :
      (e : Event) (l : L) (o : Option (Option Bytes))
      → IsSound l
      → SoundRound (serve_event reals k host games_path e l o)
  unfolding serve_event
  serve_event-Sound e l none s = after_request-Sound e l s
  serve_event-Sound e l (some received) s =
      after_handle-Sound e l (socket_handle reals k host received l.daemon) s
        (handle-Sound received l.daemon s.in_range)

  round-Sound : (e : Event) (l : L) → IsSound l → SoundRound (round reals k host games_path e l)
  unfolding round
  round-Sound e l s =
      either SoundRound l.daemon.active_keep _ (stopped l) (serve_event-Sound e l e.request s) s

  abbrev SoundOption : Option L → Type 0
  SoundOption none = Unit
  SoundOption (some l) = IsSound l

  deliver-Sound :
      (signals : List ℕ) (l : L)
      → IsSound l
      → SoundOption (deliver reals k host games_path signals l)
  unfolding deliver
  deliver-Sound [] l s = s
  deliver-Sound (signum ∷ signals) l s =
      next
        (λ f.
          deliver-Sound signals (set_flags reals k host games_path f l)
            (record { in_range = s.in_range; games_good = s.games_good }))
        (sig_handler signum (flags_of reals k host games_path l))
    where
      rest : Flags → Option L
      rest f = deliver reals k host games_path signals (set_flags reals k host games_path f l)

      next :
          ((f : Flags) → SoundOption (rest f))
          → (o : Option Flags) → SoundOption (elim o [ none ↦ none | some f ↦ rest f ])
      next h none = tt
      next h (some f) = h f

  after_round-Sound :
      (rest : L → Run reals k host games_path) (r : Round reals k host games_path)
      → ((l : L) → IsSound l → SoundRun (rest l))
      → SoundRound r
      → SoundRun (after_round reals k host games_path rest r)
  unfolding after_round
  after_round-Sound rest (stopped l) g h = h
  after_round-Sound rest (goes_on l) g h = g l h
  after_round-Sound rest crashed g h = tt

  after_signals-Sound :
      (rest : L → Run reals k host games_path) (e : Event) (o : Option L)
      → ((l : L) → IsSound l → SoundRun (rest l))
      → SoundOption o
      → SoundRun (after_signals reals k host games_path rest e o)
  unfolding after_signals
  after_signals-Sound rest e none g h = tt
  after_signals-Sound rest e (some l) g h =
      after_round-Sound rest (round reals k host games_path e l) g (round-Sound e l h)

  run-Sound :
      (rounds : List (List ℕ × Event)) (l : L)
      → IsSound l
      → SoundRun (run reals k host games_path rounds l)
  unfolding run
  run-Sound [] l s = s
  run-Sound ((signals, e) ∷ rounds) l s =
      after_signals-Sound (run reals k host games_path rounds) e
        (deliver reals k host games_path signals l) (run-Sound rounds) (deliver-Sound signals l s)

module _ (reals : Reals) (k : Kernel) (host : Host reals k) (games_path : Bytes)
    (sockets : Sockets k) (cfg0 : DaemonConfig reals.Real) (current0 target0 : Bytes) where
  abbrev M : Type 0
  M = Standing reals k host games_path sockets cfg0 current0 target0

  -- A process that serves is sound.
  abbrev pub SoundStanding : M → Type 0
  SoundStanding (serving l) = IsSound reals k host games_path l
  SoundStanding (not_started s) = Unit
  SoundStanding (left s) = Unit
  SoundStanding ended_by_failsafe = Unit
  SoundStanding ended_by_fault = Unit

  -- From the start of the daemon on, whatever requests, games and signals the rounds bring, a daemon
  -- that serves has an override of at most 4, and at most 512 names of games, each of 2 to 63 bytes
  -- and none a comment.
  pub daemon_main-Sound :
      (rounds : List (List ℕ × Event)) (s : k.State)
      → SoundStanding (daemon_main reals k host games_path sockets cfg0 current0 target0 rounds s)
  unfolding daemon_main enter_loop after_loop prepare set_kernel
  daemon_main-Sound rounds s =
      let l = prepare reals k host games_path sockets cfg0 current0 target0 s in
      entered l (record { in_range = omega arith; games_good = games_load-Good k games_path s })
        (socket_setup k sockets l.daemon.machine.kernel)
    where
      looped :
          (fd : ℕ) (r : Run reals k host games_path)
          → SoundRun reals k host games_path r
          → SoundStanding (after_loop reals k host games_path sockets cfg0 current0 target0 fd r)
      looped fd (running l) h = h
      looped fd (finished l) h = tt
      looped fd killed h = tt
      looped fd faulted h = tt

      entered :
          (l : Loop reals k host games_path)
          → IsSound reals k host games_path l
          → (o : k.State × Option ℕ)
          → SoundStanding
              (enter_loop reals k host games_path sockets cfg0 current0 target0 rounds l o)
      entered l h (s1, none) = tt
      entered l h (s1, some fd) =
          let l1 = record l { daemon = set_kernel s1 l.daemon } in
          looped fd (run reals k host games_path rounds l1) (
            run-Sound reals k host games_path rounds l1
              (record { in_range = h.in_range; games_good = h.games_good }))
