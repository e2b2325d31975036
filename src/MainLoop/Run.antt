-- ===== src/MainLoop/Run.antt =====
-- src/daemon/daemon.c: the rounds of the main loop one after the other, with the signals that come
-- between them.
use x3d_toggle_main.Prelude.{
  ℕ, ◌≡◌, refl, ap, ◌∙◌, Bool, true, false, Option, none, some, List, [], ◌∷◌, ◌++◌, ◌||◌, ◌==◌,
  Bytes, All, Bool-cases, inl, inr, arith, ◌⊎◌,
}
use x3d_toggle_main.Kernel.{Kernel}
use x3d_toggle_main.Config.Load.{Reals}
use x3d_toggle_main.Socket.State.{Host, Daemon}
use x3d_toggle_main.MainLoop.{
  Flags, sig_handler, Event, Loop, Round, stopped, goes_on, crashed, round,
}

module _ (reals : Reals) (k : Kernel) (host : Host reals k) (games_path : Bytes) where
  abbrev L : Type 0
  L = Loop reals k host games_path

  -- How the process stands: still in the loop, behind it, ended by the failsafe, or faulted.
  pub data Run : Type 0 where
    running finished : L → Run
    killed faulted : Run

  abbrev pub flags_of : L → Flags
  flags_of l = record {
    active_keep = l.daemon.active_keep;
    reload_flag = l.reload_flag;
    last_sig = 0;
  }

  abbrev pub set_flags : Flags → L → L
  set_flags f l = record l {
    daemon = record l.daemon { active_keep = f.active_keep };
    reload_flag = f.reload_flag;
  }

  -- `none` where the failsafe has run
  unfoldable pub deliver : List ℕ → L → Option L
  deliver [] l = some l
  deliver (signum ∷ signals) l = elim (sig_handler signum (flags_of l)) [
    | none ↦ none
    | some f ↦ deliver signals (set_flags f l)
  ]

  unfoldable pub after_round : (L → Run) → Round reals k host games_path → Run
  after_round rest (stopped l) = finished l
  after_round rest (goes_on l) = rest l
  after_round rest crashed = faulted

  unfoldable pub after_signals : (L → Run) → Event → Option L → Run
  after_signals rest e none = killed
  after_signals rest e (some l) = after_round rest (round reals k host games_path e l)

  -- For each round, the signals that come before it and what happens in it.
  unfoldable pub run : List (List ℕ × Event) → L → Run
  run [] l = running l
  run ((signals, e) ∷ rounds) l = after_signals (run rounds) e (deliver signals l)

  -- To continue after a part of the run that is still in the loop.
  round-append :
      (rest whole : L → Run) (l1 : L) (end : Run)
      → ((l : L) → rest l ≡ running l1 → whole l ≡ end)
      → (r : Round reals k host games_path) → after_round rest r ≡ running l1
      → after_round whole r ≡ end
  unfolding after_round
  round-append rest whole l1 end ih (stopped l) h = absurd (cc)
  round-append rest whole l1 end ih (goes_on l) h = ih l h
  round-append rest whole l1 end ih crashed h = absurd (cc)

  signals-append :
      (rest whole : L → Run) (l1 : L) (end : Run) (e : Event)
      → ((l : L) → rest l ≡ running l1 → whole l ≡ end)
      → (o : Option L) → after_signals rest e o ≡ running l1
      → after_signals whole e o ≡ end
  unfolding after_signals
  signals-append rest whole l1 end e ih none h = absurd (cc)
  signals-append rest whole l1 end e ih (some l) h =
      round-append rest whole l1 end ih (round reals k host games_path e l) h

  loop_of : L → Run → L
  loop_of l (running l1) = l1
  loop_of l r = l

  run-append :
      (rounds more : List (List ℕ × Event)) (l1 l : L)
      → run rounds l ≡ running l1
      → run (rounds ++ more) l ≡ run more l1
  unfolding run loop_of
  run-append [] more l1 l h = ap (λ r. run more (loop_of l r)) h
  run-append ((signals, e) ∷ rounds) more l1 l h =
      signals-append (run rounds) (run (rounds ++ more)) l1 (run more l1) e
        (run-append rounds more l1) (deliver signals l) h

  -- SIGHUP, SIGINT and SIGTERM
  abbrev pub is_handled : ℕ → Bool
  is_handled signum = (signum == 15 || signum == 2) || signum == 1

  abbrev pub ends_loop : ℕ → Bool
  ends_loop signum = signum == 15 || signum == 2

  abbrev pub one_ends : List ℕ → Bool
  one_ends [] = false
  one_ends (signum ∷ signals) = ends_loop signum || one_ends signals

  abbrev pub off : L → Daemon reals k
  off l = record l.daemon { active_keep = false }

  abbrev pub Leaves : Daemon reals k → Option L → Type 0
  Leaves d none = ⊥
  Leaves d (some l) = l.daemon ≡ d

  ends_step :
      (signum : ℕ) (f : Flags)
      → ends_loop signum ≡ true
      → sig_handler signum f ≡ some (record f { active_keep = false; last_sig = signum })
  unfolding sig_handler
  ends_step signum f e = rw e refl

  hangup_step :
      (signum : ℕ) (f : Flags)
      → ends_loop signum ≡ false
      → is_handled signum ≡ true
      → sig_handler signum f ≡ some (record f { reload_flag = true; last_sig = signum })
  unfolding sig_handler
  hangup_step signum f e h =
      let one : (signum == 1) ≡ true = ground (arith, e, h) in rw (e, one) refl

  -- Handled signals of which one ends the loop, or that come when the flag is cleared already.
  deliver-Leaves :
      (signals : List ℕ) (l : L)
      → All (λ s. is_handled s ≡ true) signals
      → (one_ends signals ≡ true) ⊎ (l.daemon.active_keep ≡ false)
      → Leaves (off l) (deliver signals l)
  unfolding deliver
  deliver-Leaves [] l h (inl e) = absurd (cc)
  deliver-Leaves [] l h (inr e) = λ i. record l.daemon { active_keep = e i }
  deliver-Leaves (signum ∷ signals) l (hs, h) one = elim (Bool-cases (ends_loop signum)) [
    | inl e ↦
        let f = flags_of l in
        rw (Leaves, ends_step signum f e)
          (deliver-Leaves signals
            (set_flags (record f { active_keep = false; last_sig = signum }) l) h (inr refl))
    | inr e ↦
        let f = flags_of l in
        rw (Leaves, hangup_step signum f e hs)
          (deliver-Leaves signals (set_flags (record f { reload_flag = true; last_sig = signum }) l)
            h (later signum signals l e one))
  ]
    where
      later :
          (signum : ℕ) (signals : List ℕ) (l : L)
          → ends_loop signum ≡ false
          → (one_ends (signum ∷ signals) ≡ true) ⊎ (l.daemon.active_keep ≡ false)
          → (one_ends signals ≡ true) ⊎ (l.daemon.active_keep ≡ false)
      later signum signals l e (inl h) = inl (ground (arith, e, h))
      later signum signals l e (inr h) = inr h

  round-off :
      (e : Event) (l : L)
      → l.daemon.active_keep ≡ false
      → round reals k host games_path e l ≡ stopped l
  unfolding round
  round-off e l h = rw h refl

  -- The loop has ended with a daemon.
  abbrev pub EndsWith : Daemon reals k → Run → Type 0
  EndsWith d (finished l) = l.daemon ≡ d
  EndsWith d r = ⊥

  after-off :
      (rest : L → Run) (e : Event) (d : Daemon reals k) (o : Option L)
      → d.active_keep ≡ false
      → Leaves d o
      → EndsWith d (after_signals rest e o)
  unfolding after_signals after_round
  after-off rest e d none h leaves = leaves
  after-off rest e d (some l) h leaves =
      let off_now : l.daemon.active_keep ≡ false = ap (λ d. d.active_keep) leaves ∙ h in
      rw (round-off e l off_now) leaves

  -- While the loop runs, signals that the handler knows and among which is a SIGTERM or a SIGINT
  -- end it in the next round, before a request is served or a mode is set: the daemon is the one
  -- before the signals with its flag cleared, whatever would have come in this round or later.
  pub run-signals :
      (rounds more : List (List ℕ × Event)) (signals : List ℕ) (e : Event) (l l1 : L)
      → run rounds l ≡ running l1
      → All (λ s. is_handled s ≡ true) signals
      → one_ends signals ≡ true
      → EndsWith (off l1) (run (rounds ++ ((signals, e) ∷ more)) l)
  unfolding run
  run-signals rounds more signals e l l1 h known ends =
      rw (run-append rounds ((signals, e) ∷ more) l1 l h) (
        after-off (run more) e (off l1) (deliver signals l1) refl
          (deliver-Leaves signals l1 known (inl ends)))
