-- ===== src/Socket/Settings/Persist.antt =====
-- What SET_CONFIG gives a field at once, and what the daemon reads for it from the file that it
-- wrote.
use x3d_toggle_main.Prelude.{
  ℕ, ◌-◌, ◌≤◌, ◌<◌, ◌≡◌, ◌≢◌, refl, sym, ap, ◌∙◌, Bool, true, false, none, some, ◌∷◌, Bytes, cstr,
  take, take-all, length, arith, NoNul,
}
use x3d_toggle_main.Libc.Strings.Equal.{str_eq, str_eq_iff}
use x3d_toggle_main.Libc.Strings.{strcmp}
use x3d_toggle_main.Libc.Bounded.{printf_s}
use x3d_toggle_main.Kernel.{Kernel, IsRegular}
use x3d_toggle_main.Config.Fields.{
  Field, polling_interval, server_address, affinity_mask, affinity_freq_mask, fallback_profile,
  thp_mode, net_qdisc, daemon_state, server_enabled, server_ssh, lint_clang_diagnostic,
  lint_clang_bugprone, lint_clang_modernize, lint_clang_readability, lint_clang_performance,
  lint_clang_portability, lint_clang_analyzer, lint_cppcheck_all, lint_cppcheck_warning,
  lint_cppcheck_style, lint_cppcheck_performance, lint_cppcheck_portability,
  lint_cppcheck_information, lint_cppcheck_unused, lint_valgrind_mode, lint_valgrind_kinds,
  lint_valgrind_origins, Kind, text_kind, kind, key_name, affinity_level,
}
use x3d_toggle_main.Config.Update.{buffer_size}
use x3d_toggle_main.Config.Update.Laws.{updated}
use x3d_toggle_main.Config.Load.{
  Reals, text, same_field, find_field, assign, load_value, config_load,
}
use x3d_toggle_main.Config.RoundTrip.{OneLine, config_load-config_update}
use x3d_toggle_main.Socket.State.{Host, Daemon, set_kernel}
use x3d_toggle_main.Socket.Settings.{live_fields, live_value, save, set_live, is_ebpf}

-- A text that is shorter than the size that `config_load` cuts it at.
abbrev pub Fits : Kind → Bytes → Type 0
Fits (text_kind size) v = length (cstr v) < size
Fits _ v = Unit

abbrev pub is_live : Field → Bool
is_live f = elim (find_field (key_name f) live_fields) [ none ↦ false | some _ ↦ true ]

printf_s-short :
    (a b : ℕ) (v : Bytes) → length (cstr v) < a → length (cstr v) < b → printf_s a v ≡ printf_s b v
unfolding printf_s
printf_s-short a b v ha hb =
    take-all (a - 1) (cstr v) (omega arith) ∙ sym (take-all (b - 1) (cstr v) (omega arith))

same_field_refl : (f : Field) → same_field f f ≡ true
unfolding same_field
same_field_refl f = (str_eq_iff (key_name f) (key_name f)).1 refl

not_live : false ≢ true
not_live h = cc h

module _ (reals : Reals) (k : Kernel) (host : Host reals k) where
  live_value-load_value :
      (f : Field) (v : Bytes)
      → is_live f ≡ true
      → Fits (kind f) v
      → live_value reals k host f v ≡ load_value reals (kind f) v
  unfolding live_value load_value kind find_field live_fields key_name str_eq strcmp
  live_value-load_value polling_interval v h fits = refl
  live_value-load_value server_address v h fits =
      ap text (printf_s-short 128 127 v (omega arith) fits)
  live_value-load_value affinity_mask v h fits = ap text (printf_s-short 64 63 v (omega arith) fits)
  live_value-load_value affinity_freq_mask v h fits =
      ap text (printf_s-short 64 63 v (omega arith) fits)
  live_value-load_value fallback_profile v h fits =
      ap text (printf_s-short 64 63 v (omega arith) fits)
  live_value-load_value thp_mode v h fits = ap text (printf_s-short 16 15 v (omega arith) fits)
  live_value-load_value net_qdisc v h fits = ap text (printf_s-short 32 31 v (omega arith) fits)
  live_value-load_value daemon_state v h fits = absurd (not_live h)
  live_value-load_value server_enabled v h fits = absurd (not_live h)
  live_value-load_value server_ssh v h fits = absurd (not_live h)
  live_value-load_value lint_clang_diagnostic v h fits = absurd (not_live h)
  live_value-load_value lint_clang_bugprone v h fits = absurd (not_live h)
  live_value-load_value lint_clang_modernize v h fits = absurd (not_live h)
  live_value-load_value lint_clang_readability v h fits = absurd (not_live h)
  live_value-load_value lint_clang_performance v h fits = absurd (not_live h)
  live_value-load_value lint_clang_portability v h fits = absurd (not_live h)
  live_value-load_value lint_clang_analyzer v h fits = absurd (not_live h)
  live_value-load_value lint_cppcheck_all v h fits = absurd (not_live h)
  live_value-load_value lint_cppcheck_warning v h fits = absurd (not_live h)
  live_value-load_value lint_cppcheck_style v h fits = absurd (not_live h)
  live_value-load_value lint_cppcheck_performance v h fits = absurd (not_live h)
  live_value-load_value lint_cppcheck_portability v h fits = absurd (not_live h)
  live_value-load_value lint_cppcheck_information v h fits = absurd (not_live h)
  live_value-load_value lint_cppcheck_unused v h fits = absurd (not_live h)
  live_value-load_value lint_valgrind_mode v h fits = absurd (not_live h)
  live_value-load_value lint_valgrind_kinds v h fits = absurd (not_live h)
  live_value-load_value lint_valgrind_origins v h fits = absurd (not_live h)
  live_value-load_value _ v h fits = refl

  set_live-plain :
      (f : Field) (v : Bytes) (d : Daemon reals k)
      → is_ebpf reals k host f ≡ false
      → set_live reals k host f v d
        ≡ record d { cfg = assign d.cfg f (live_value reals k host f v) }
  unfolding set_live
  set_live-plain f v d e = rw e refl

  module _ (file : IsRegular k host.conf_path) (d : Daemon reals k) (c : ℕ) (rest : Bytes)
      (holds : file.Holds (c ∷ rest) d.machine.kernel) (f : Field) (val : Bytes) where
    -- Let the configuration file hold a non-empty text, let the value hold no NUL and no newline, and
    -- let the text that `config_update` makes of the file have at most 4095 bytes. For a field that
    -- SET_CONFIG assigns and `config_load` reads, other than EBPF_ENABLE, and a value that is shorter
    -- than the size of the field, the field after SET_CONFIG is what a later CONFIG_SYNC, or a
    -- restart, reads for it from the file that SET_CONFIG wrote.
    pub set_live-persists :
        (nul : NoNul val) (line : OneLine val)
        (size : length (updated (key_name f) val (take (buffer_size - 1) (c ∷ rest))) ≤ 4095)
        (live : is_live f ≡ true) (loaded : same_field f affinity_level ≡ false)
        (no_bpf : is_ebpf reals k host f ≡ false) (fits : Fits (kind f) val)
        → (let d1 = set_live reals k host f val (save reals k host (key_name f) val d) in
            d1.cfg.field f
            ≡ (config_load reals k host.conf_path host.build d1.machine.kernel d1.cfg).field f)
    unfolding save set_kernel assign
    set_live-persists nul line size live loaded no_bpf fits =
        let self : same_field f f ≡ true = same_field_refl f in
        let agree = live_value-load_value f val live fits in
        let kept =
          config_load-config_update reals k host.conf_path file d.machine.kernel c rest holds f val
            nul line size loaded host.build in
        rw (set_live-plain f val (save reals k host (key_name f) val d) no_bpf, self)
          (agree ∙ sym (kept _))
