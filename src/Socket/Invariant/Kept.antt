-- ===== src/Socket/Invariant/Kept.antt =====
-- What a request keeps, as a property of its outcome.
use x3d_toggle_main.Prelude.{
  ◌≡◌, ◌≤◌, refl, Bool, true, false, not, ◌&&◌, Option, none, some, [], ◌∷◌, Bytes, arith, ℤ,
}
use x3d_toggle_main.Kernel.{Kernel}
use x3d_toggle_main.Config.Load.{Reals}
use x3d_toggle_main.Socket.State.{Host, Daemon, Outcome, replied, fault}
use x3d_toggle_main.Socket.Commands.{
  Command, toggle, set_mode, set_cppc, set_park, set_unpark, set_tdp, set_epp_ccd, set_daemon,
  set_wrapper, daemon_disable,
}
use x3d_toggle_main.Socket.Number.{Number, faulted, refused, number}
use x3d_toggle_main.Socket.Tuning.{with_number, with_split}

module _ (reals : Reals) (k : Kernel) (host : Host reals k) where
  abbrev D : Type 0
  D = Daemon reals k

  abbrev pub Allowed : Bool → Type 0
  Allowed true = Unit
  Allowed false = ⊥

  -- One reply and a state with `P`; or a fault, where `faults` allows it.
  abbrev pub Leads : Bool → (D → Type 0) → Outcome reals k → Type 0
  Leads faults P fault = Allowed faults
  Leads faults P (replied [] d) = ⊥
  Leads faults P (replied (t ∷ []) d) = P d
  Leads faults P (replied (t ∷ u ∷ ts) d) = ⊥

  -- the commands that take a number
  abbrev pub takes_number : Command → Bool
  takes_number set_cppc = true
  takes_number set_park = true
  takes_number set_unpark = true
  takes_number set_tdp = true
  takes_number set_epp_ccd = true
  takes_number _ = false

  -- The commands that change the override, the lock of the wrapper, and the flag of the loop.
  abbrev pub sets_override : Command → Bool
  sets_override toggle = true
  sets_override set_mode = true
  sets_override set_daemon = true
  sets_override set_wrapper = true
  sets_override _ = false

  abbrev pub is_wrapper : Command → Bool
  is_wrapper set_wrapper = true
  is_wrapper _ = false

  abbrev pub is_disable : Command → Bool
  is_disable daemon_disable = true
  is_disable _ = false

  -- From `d` to `d1`, by command `c`
  abbrev pub Keeps : Command → D → D → Type 0
  Keeps c d d1 =
      (d.active_override ≤ 4 → d1.active_override ≤ 4)
      × (sets_override c ≡ false → d1.active_override ≡ d.active_override)
      × (is_wrapper c ≡ false → d1.wrapper_lock ≡ d.wrapper_lock)
      × (d1.active_keep ≡ (d.active_keep && not (is_disable c)))

  -- nothing of the four is changed
  abbrev pub Same : D → D → Type 0
  Same d d1 =
      (d1.active_override ≡ d.active_override)
      × (d1.wrapper_lock ≡ d.wrapper_lock)
      × (d1.active_keep ≡ d.active_keep)

  -- the override stays in its range, and the other two are not changed
  abbrev pub InRange : D → D → Type 0
  InRange d d1 =
      (d.active_override ≤ 4 → d1.active_override ≤ 4)
      × (d1.wrapper_lock ≡ d.wrapper_lock)
      × (d1.active_keep ≡ d.active_keep)

  pub with_number-Leads :
      (P : D → Type 0) (n : Number) (d : D) (go : ℤ → Outcome reals k)
      → P d
      → ((z : ℤ) → Leads true P (go z))
      → Leads true P (with_number reals k host n d go)
  unfolding with_number
  with_number-Leads P faulted d go h g = tt
  with_number-Leads P refused d go h g = h
  with_number-Leads P (number n) d go h g = g n

  pub with_split-Leads :
      (f : Bool) (P : D → Type 0) (o : Option (Bytes × Bytes)) (d : D)
      (go : Bytes → Bytes → Outcome reals k)
      → P d
      → ((l r : Bytes) → Leads f P (go l r))
      → Leads f P (with_split reals k host o d go)
  unfolding with_split
  with_split-Leads f P none d go h g = h
  with_split-Leads f P (some (l, r)) d go h g = g l r

  pub same : (d : D) → Same d d
  same d = (refl, refl, refl)

  pub weaken :
      (f : Bool) (P Q : D → Type 0) (o : Outcome reals k)
      → ((d1 : D) → P d1 → Q d1)
      → Leads f P o
      → Leads f Q o
  weaken f P Q fault h l = l
  weaken f P Q (replied [] d) h l = l
  weaken f P Q (replied (t ∷ []) d) h l = h d l
  weaken f P Q (replied (t ∷ u ∷ ts) d) h l = l

  pub Same-Keeps :
      (c : Command) (d : D) (o : Outcome reals k)
      → is_disable c ≡ false
      → Leads (takes_number c) (Same d) o
      → Leads (takes_number c) (Keeps c d) o
  Same-Keeps c d o e =
      weaken (takes_number c) (Same d) (Keeps c d) o
        (λ d1 s. (λ h. omega (arith, s.0), λ _. s.0, λ _. s.1, ground (arith, s.2, e)))

  pub range-Keeps :
      (c : Command) (d : D) (o : Outcome reals k)
      → sets_override c ≡ true
      → is_disable c ≡ false
      → Leads (takes_number c) (InRange d) o
      → Leads (takes_number c) (Keeps c d) o
  range-Keeps c d o s e =
      weaken (takes_number c) (InRange d) (Keeps c d) o
        (λ d1 r. (r.0, λ n. cc (s, n), λ _. r.1, ground (arith, r.2, e)))
