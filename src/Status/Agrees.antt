-- ===== src/Status/Agrees.antt =====
-- `daemon_status` with a daemon that answers: what it reports is what the daemon holds.
use x3d_toggle_main.Prelude.{
  ◌-◌, ◌<◌, ◌^◌, ◌≡◌, refl, ap, ◌∙◌, inl, Bool, true, false, some, [], ◌∷◌, ◌++◌, map, ◌||◌,
  if◌then◌else◌, pos, ℤ, Bytes, codes, cstr, cstr_self, Lacks, All-append, take, length, take-take,
  append-nil, arith, Bool-cases, inr,
}
use x3d_toggle_main.Libc.Chars.{toupper}
use x3d_toggle_main.Libc.Strings.{strncmp, strlen}
use x3d_toggle_main.Libc.Strings.Equal.{str_eq, starts_with}
use x3d_toggle_main.Libc.Bounded.{printf_d}
use x3d_toggle_main.Libc.Bounded.Decimal.{printf_d-whole, itoa-flag}
use x3d_toggle_main.Kernel.{Kernel, exists}
use x3d_toggle_main.Errors.{err_success}
use x3d_toggle_main.Config.Fields.{daemon_state, refresh_interval, affinity_mask}
use x3d_toggle_main.Config.Load.{Reals, text}
use x3d_toggle_main.Socket.State.{Host, Daemon, replied}
use x3d_toggle_main.Socket.Commands.{prefix, ping, daemon_info}
use x3d_toggle_main.Socket.Modes.{show_field, handle_info}
use x3d_toggle_main.Socket.Handle.{serve}
use x3d_toggle_main.Socket.Dispatch.{socket_handle-serve}
use x3d_toggle_main.Client.{
  online, answered, is_ok, queried, socket_probe, socket_query, world_kernel,
}
use x3d_toggle_main.Client.Requests.{send_command}
use x3d_toggle_main.Status.Info.{Live, from_info}
use x3d_toggle_main.Status.Online.{IsState, Lacks-take, answer_text, from_info-answer}
use x3d_toggle_main.Status.Report.{
  daemon_active, daemon_shown, live_of, report, status_of, daemon_status,
}
use x3d_toggle_main.Status.Cut.{head_text, cut_answer}

module _ (reals : Reals) (k : Kernel) (host : Host reals k) where
  probe-online :
      (d : Daemon reals k) → socket_probe reals k host (online d) ≡ (online d, err_success)
  unfolding socket_probe prefix serve answered is_ok starts_with strncmp strlen
  probe-online d = send_command reals k host d ping [] (codes "PING") refl refl refl

  -- what stands behind BPF_ACTIVE in the answer
  abbrev pub tail_text : Daemon reals k → Bytes
  tail_text d =
      codes "REFRESH_INTERVAL="
      ++ (show_field reals k host (d.cfg.field refresh_interval)
          ++ (codes "|MASK="
              ++ (show_field reals k host (d.cfg.field affinity_mask) ++ codes "|CAPS=llx")))

  abbrev bpf_number : Bool → ℤ
  bpf_number b = if b then pos 1 else pos 0

  printf_d-flag : (b : Bool) → printf_d 128 (bpf_number b) ≡ (if b then codes "1" else codes "0")
  printf_d-flag true = printf_d-whole 128 1 (omega arith) (omega arith) ∙ itoa-flag.1
  printf_d-flag false = printf_d-whole 128 0 (omega arith) (omega arith) ∙ itoa-flag.0

  serve-info :
      (d : Daemon reals k) (st : Bytes)
      → d.cfg.field daemon_state ≡ text st
      → IsState st
      → d.active_override < 2 ^ 31
      → serve reals k host daemon_info [] d
        ≡ replied (take 511 (answer_text st d.active_override d.bpf_active (tail_text d)) ∷ []) d
  unfolding serve handle_info show_field
  serve-info d st e is_state hn =
      rw
        (
          e,
          cstr_self st is_state.no_nul,
          printf_d-whole 128 d.active_override (omega arith) hn,
          printf_d-flag d.bpf_active,
        )
        refl

  query-online :
      (d : Daemon reals k) (st : Bytes)
      → d.cfg.field daemon_state ≡ text st
      → IsState st
      → d.active_override < 2 ^ 31
      → socket_query reals k host (codes "DAEMON_INFO") 128 (online d)
        ≡ (online d, some (take 127 (answer_text st d.active_override d.bpf_active (tail_text d))))
  unfolding socket_query prefix cstr queried
  query-online d st e is_state hn =
      let answer = answer_text st d.active_override d.bpf_active (tail_text d) in
      let handled = socket_handle-serve reals k host d daemon_info [] [] tt (inl refl) in
      ap (queried reals k host d 128) (handled ∙ serve-info d st e is_state hn)
      ∙ ap (λ t. (online d, some (take 127 t))) (append-nil (take 511 answer))
      ∙ ap (λ t. (online d, some t)) (take-take 127 511 answer (omega arith))

  active-online :
      (denied : Bool) (d : Daemon reals k)
      → k.access exists (codes "/run/x3d-toggle/x3d-toggle.ipc") d.machine.kernel ≡ true
      → daemon_active reals k host denied (online d) ≡ (online d, 0)
  unfolding daemon_active world_kernel
  active-online denied d there = rw (there, probe-online d) refl

  -- `d_mode` of a daemon that answers
  abbrev pub shown_mode : Bytes → Bytes
  shown_mode state =
      if str_eq state (codes "DEFAULT")
      then codes "ACTIVE"
      else if str_eq state (codes "HARD_RESET") || str_eq state (codes "AUTO")
      then codes "CPPC NATIVE"
      else codes "SUSPENDED"

  shown-online :
      (l : Live reals.Real)
      → ((daemon_shown reals k host 0 l).1.0 ≡ codes "SOCKET ONLINE")
        × ((daemon_shown reals k host 0 l).1.1.0 ≡ shown_mode l.state)
        × ((daemon_shown reals k host 0 l).1.1.1 ≡ l.ebpf)
  unfolding daemon_shown
  shown-online l = elim (Bool-cases (str_eq l.state (codes "DEFAULT"))) [
    | inl e ↦ rw e (refl, refl, refl)
    | inr e ↦
        elim (Bool-cases (str_eq l.state (codes "HARD_RESET") || str_eq l.state (codes "AUTO"))) [
          | inl f ↦ rw (e, f) (refl, refl, refl)
          | inr f ↦ rw (e, f) (refl, refl, refl)
        ]
  ]

  status-online :
      (conf_path : Bytes) (denied : Bool) (d : Daemon reals k) (st : Bytes)
      → k.access exists (codes "/run/x3d-toggle/x3d-toggle.ipc") d.machine.kernel ≡ true
      → d.cfg.field daemon_state ≡ text st
      → IsState st
      → d.active_override < 2 ^ 31
      → daemon_status reals k host conf_path denied (online d) ≡ (
        online d,
        report reals k host d.machine.kernel 0 (
            from_info reals
              (take 127 (answer_text st d.active_override d.bpf_active (tail_text d)))),
      )
  unfolding daemon_status status_of live_of world_kernel
  status-online conf_path denied d st there e is_state hn =
      rw (active-online denied d there, query-online d st e is_state hn) refl

  -- With a daemon that listens and whose socket is in place, where the name of its state has at most 31
  -- bytes and no NUL, `|`, `;`, `O` or `B` among them, its override is below 2^31, and neither the
  -- interval nor the mask that it answers has a `;`: asking for the status changes nothing, and the
  -- report shows the state of the daemon in capitals, that its socket is online, the mode of work that
  -- belongs to the state, and, in the state "default", whether the daemon uses eBPF.
  pub daemon_status-agrees :
      (conf_path : Bytes) (denied : Bool) (d : Daemon reals k) (st : Bytes)
      → k.access exists (codes "/run/x3d-toggle/x3d-toggle.ipc") d.machine.kernel ≡ true
      → d.cfg.field daemon_state ≡ text st
      → IsState st
      → d.active_override < 2 ^ 31
      → Lacks b';' (show_field reals k host (d.cfg.field refresh_interval))
      → Lacks b';' (show_field reals k host (d.cfg.field affinity_mask))
      → let r = daemon_status reals k host conf_path denied (online d) in
        (r.0 ≡ online d)
        × (r.1.daemon_state ≡ map toupper st)
        × (r.1.ipc_status ≡ codes "SOCKET ONLINE")
        × (r.1.d_mode ≡ shown_mode (map toupper st))
        × (r.1.ebpf_status ≡ (
            if str_eq (map toupper st) (codes "DEFAULT")
            then if d.bpf_active then codes "eBPF (Active)" else codes "Polling (Fallback)"
            else codes "INACTIVE (MANUAL OVERRIDE)"))
  unfolding report
  daemon_status-agrees conf_path denied d st there e is_state hn hi hm =
      let n = d.active_override in
      let cut = take (127 - length (head_text st n d.bpf_active)) (tail_text d) in
      let clean : Lacks b';' (tail_text d) =
        All-append _ (codes "REFRESH_INTERVAL=") _ (omega arith) (
          All-append _ (show_field reals k host (d.cfg.field refresh_interval)) _ hi (
            All-append _ (codes "|MASK=") _ (omega arith) (
              All-append _ (show_field reals k host (d.cfg.field affinity_mask)) _ hm
                (omega arith)))) in
      let l = from_info reals (answer_text st n d.bpf_active cut) in
      let info =
        from_info-answer st is_state n d.bpf_active cut reals hn
          (Lacks-take b';' (127 - length (head_text st n d.bpf_active)) (tail_text d) clean) in
      let shown = shown-online l in
      let whole : daemon_status reals k host conf_path denied (online d)
          ≡ (online d, report reals k host d.machine.kernel 0 l) =
        status-online conf_path denied d st there e is_state hn
        ∙ ap (λ t. (online d, report reals k host d.machine.kernel 0 (from_info reals t)))
            (cut_answer st (tail_text d) n d.bpf_active is_state.short hn) in
      rw whole (refl, info.0, shown.0, shown.1 ∙ ap shown_mode info.0, shown.2 ∙ info.2)
