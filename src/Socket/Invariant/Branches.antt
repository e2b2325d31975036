-- ===== src/Socket/Invariant/Branches.antt =====
-- What the branches of `socket_handle` keep that change more than the kernel.
use x3d_toggle_main.Prelude.{
  ◌≡◌, ◌≤◌, refl, inl, inr, Bool, true, false, not, ◌&&◌, ◌||◌, Option, none, some, Bytes, codes,
  ◌==◌, Bool-cases, arith,
}
use x3d_toggle_main.Libc.Strings.Equal.{str_eq}
use x3d_toggle_main.Libc.Sysctl.{sysctl_write}
use x3d_toggle_main.Kernel.{Kernel}
use x3d_toggle_main.Config.Fields.{Field}
use x3d_toggle_main.Config.Load.{Reals, find_field}
use x3d_toggle_main.Socket.State.{Host, Daemon, set_kernel}
use x3d_toggle_main.Socket.Modes.{
  ModeRequest, automatic, unknown, apply_request, enter_mode, handle_toggle, handle_set_wrapper,
}
use x3d_toggle_main.Socket.Tuning.{handle_set_park, handle_set_unpark}
use x3d_toggle_main.Socket.Settings.{
  save, live_fields, is_ebpf, switch_bpf, set_live, set_found, clear_override, reset_script,
  after_reset, handle_set_config, handle_set_daemon,
}
use x3d_toggle_main.Socket.Advanced.{Node, node_path, answer_node, set_node, set_found_node}
use x3d_toggle_main.Socket.Invariant.Kept.{
  Leads, Same, InRange, with_number-Leads, with_split-Leads, same,
}

module _ (reals : Reals) (k : Kernel) (host : Host reals k) where
  abbrev D : Type 0
  D = Daemon reals k

  pub park-Same :
      (arg : Bytes) (d : D)
      → Leads reals k host true (Same reals k host d) (handle_set_park reals k host arg d)
  unfolding handle_set_park
  park-Same arg d = elim (Bool-cases (str_eq arg (codes "ccd1"))) [
    | inl e ↦ rw e (refl, refl, refl)
    | inr e ↦ rw e (
        with_number-Leads reals k host (Same reals k host d) _ d _ (same reals k host d)
          (λ z. (refl, refl, refl)))
  ]

  pub unpark-Same :
      (arg : Bytes) (d : D)
      → Leads reals k host true (Same reals k host d) (handle_set_unpark reals k host arg d)
  unfolding handle_set_unpark
  unpark-Same arg d = elim (Bool-cases (str_eq arg (codes "ccd1") || str_eq arg (codes "all"))) [
    | inl e ↦ rw e (refl, refl, refl)
    | inr e ↦ rw e (
        with_number-Leads reals k host (Same reals k host d) _ d _ (same reals k host d)
          (λ z. (refl, refl, refl)))
  ]

  pub switch_bpf-Same : (on : Bool) (d : D) → Same reals k host d (switch_bpf reals k host on d)
  unfolding switch_bpf set_kernel
  switch_bpf-Same true d = elim (Bool-cases d.bpf_active) [
    | inl e ↦ rw e (refl, refl, refl)
    | inr e ↦ rw e (refl, refl, refl)
  ]
  switch_bpf-Same false d = elim (Bool-cases d.bpf_active) [
    | inl e ↦ rw e (refl, refl, refl)
    | inr e ↦ rw e (refl, refl, refl)
  ]

  pub set_live-Same :
      (f : Field) (v : Bytes) (d : D) → Same reals k host d (set_live reals k host f v d)
  unfolding set_live
  set_live-Same f v d = elim (Bool-cases (is_ebpf reals k host f)) [
    | inl e ↦ rw e (switch_bpf-Same _ _)
    | inr e ↦ rw e (refl, refl, refl)
  ]

  pub set_found-Same :
      (o : Option Field) (v : Bytes) (d : D) → Same reals k host d (set_found reals k host o v d)
  unfolding set_found
  set_found-Same none v d = same reals k host d
  set_found-Same (some f) v d = set_live-Same f v d

  pub set_config-Same :
      (arg : Bytes) (d : D)
      → Leads reals k host false (Same reals k host d) (handle_set_config reals k host arg d)
  unfolding handle_set_config save set_kernel
  set_config-Same arg d =
      with_split-Leads reals k host false (Same reals k host d) _ d _ (same reals k host d)
        (λ kv v. set_found-Same (find_field kv live_fields) v (save reals k host kv v d))

  pub answer_node-Same :
      (o : Option Bytes) (d : D)
      → Leads reals k host false (Same reals k host d) (answer_node reals k host o d)
  unfolding answer_node
  answer_node-Same none d = same reals k host d
  answer_node-Same (some v) d = same reals k host d

  pub set_node-Same :
      (o : Option Node) (val : Bytes) (d : D)
      → Leads reals k host false (Same reals k host d) (set_found_node reals k host o val d)
  unfolding set_found_node set_node save set_kernel
  set_node-Same none val d = same reals k host d
  set_node-Same (some n) val d =
      elim (Bool-cases (sysctl_write k (node_path n) val d.machine.kernel).1) [
        | inl e ↦ rw e (refl, refl, refl)
        | inr e ↦ rw e (refl, refl, refl)
      ]

  pub apply_request-InRange :
      (r : ModeRequest) (d : D) → InRange reals k host d (apply_request reals k host r d).0
  unfolding apply_request enter_mode
  apply_request-InRange automatic d = (λ _. omega arith, refl, refl)
  apply_request-InRange unknown d = (λ h. h, refl, refl)
  apply_request-InRange _ d = (λ _. omega arith, refl, refl)

  pub toggle-InRange :
      (d : D) → Leads reals k host false (InRange reals k host d) (handle_toggle reals k host d)
  unfolding handle_toggle
  toggle-InRange d = (λ _. ground arith, refl, refl)

  pub clear_override-InRange :
      (val : Bytes) (d : D) → InRange reals k host d (clear_override reals k host val d)
  unfolding clear_override
  clear_override-InRange val d =
      elim (Bool-cases (
        not (d.active_override == 0)
        && (str_eq val (codes "auto") || str_eq val (codes "default")))) [
          | inl e ↦ rw e (λ _. omega arith, refl, refl)
          | inr e ↦ rw e (λ h. h, refl, refl)
        ]

  pub after_reset-InRange :
      (val : Bytes) (failed : Bool) (d : D)
      → Leads reals k host false (InRange reals k host d) (after_reset reals k host val (d, failed))
  unfolding after_reset
  after_reset-InRange val true d = (λ h. h, refl, refl)
  after_reset-InRange val false d = clear_override-InRange val d

  pub set_daemon-InRange :
      (val : Bytes) (d : D)
      → Leads reals k host false (InRange reals k host d) (handle_set_daemon reals k host val d)
  unfolding handle_set_daemon reset_script save set_kernel
  set_daemon-InRange val d =
      elim (Bool-cases (
        str_eq val (codes "manual") || str_eq val (codes "auto") || str_eq val (codes "default"))) [
          | inr e ↦ rw e (λ h. h, refl, refl)
          | inl e ↦ elim (Bool-cases (str_eq val (codes "auto"))) [
            | inl auto ↦ rw (e, auto) (after_reset-InRange val _ _)
            | inr other ↦ rw (e, other) (clear_override-InRange val _)
          ]
        ]

  pub wrapper-InRange :
      (arg : Bytes) (d : D)
      → Leads reals k host false
          (λ d1. (d1.active_override ≤ 4) × (d1.active_keep ≡ d.active_keep))
          (handle_set_wrapper reals k host arg d)
  unfolding handle_set_wrapper
  wrapper-InRange arg d = (ground arith, refl)
