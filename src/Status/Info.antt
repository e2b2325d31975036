-- ===== src/Status/Info.antt =====
-- src/status.c: what `daemon_status` learns of the daemon, from its answer to DAEMON_INFO or from the
-- file of the settings. The sizes of the texts are the BUFF_ macros of scripts/framework/xui.sh.
use x3d_toggle_main.Prelude.{
  ℕ, ◌-◌, Bool, true, false, not, ◌&&◌, Option, none, some, List, [], ◌∷◌, map, if◌then◌else◌,
  String, Bytes, codes, cstr, take, drop, length, ℤ, negsuc,
}
use x3d_toggle_main.Libc.Chars.{toupper}
use x3d_toggle_main.Libc.Strings.{strstr, strchr}
use x3d_toggle_main.Libc.Strings.Equal.{is_zero, str_eq, starts_with}
use x3d_toggle_main.Libc.Numbers.{atoi}
use x3d_toggle_main.Libc.Bounded.{printf_s}
use x3d_toggle_main.Lines.{split_lines}
use x3d_toggle_main.Config.Load.{Reals}

-- `st->refresh_interval`: 0.0, 0.5 or what `atof` reads
pub data Refresh (A : Type 0) : Type 0 where
  zeroed half : Refresh A
  refresh : A → Refresh A

-- What is learnt of the daemon: the texts, `live_override` and `affinity_active`.
pub record Live (A : Type 0) : Type 0 where
  pub state : Bytes
  pub ebpf : Bytes
  pub override : ℤ
  pub affinity : Bool
  pub interval : Refresh A

unfoldable pub status_upper : Bytes → Bytes
status_upper str = map toupper (cstr str)

abbrev pub drop_found : ℕ → Option Bytes → Option Bytes
drop_found n none = none
drop_found n (some p) = some (drop n p)

-- behind a marker: `strstr(live_info, "STATE=") + 6`
unfoldable pub behind : Bytes → String → ℕ → Option Bytes
behind live_info marker n = drop_found n (strstr (some live_info) (some (codes marker)))

unfoldable pub cut_at : Bytes → Option Bytes → Bytes
cut_at t none = t
cut_at t (some sc) = take (length t - length sc) t

-- the text in front of the first `;`, or of the first `|` where there is no `;`
unfoldable pub cut_separator : Bytes → Bytes
cut_separator t = elim (strchr (some t) b';') [
  | none ↦ cut_at t (strchr (some t) b'|')
  | some sc ↦ cut_at t (some sc)
]

unfoldable pub state_text : Option Bytes → Bytes
state_text none = codes "MANUAL"
state_text (some st_val) = cut_separator (printf_s 64 st_val)

unfoldable pub override_value : Option Bytes → ℤ
override_value none = negsuc 0
override_value (some ov_val) = atoi ov_val

unfoldable pub has_mask : Option Bytes → Bool
has_mask none = false
has_mask (some mk) = not (starts_with mk (codes "none"))

unfoldable pub bpf_text : Option Bytes → Bytes
bpf_text none = codes "DYNAMIC POLLING"
bpf_text (some ba_val) =
    if is_zero (atoi ba_val) then codes "Polling (Fallback)" else codes "eBPF (Active)"

module _ (reals : Reals) where
  abbrev pub L : Type 0
  L = Live reals.Real

  unfoldable pub unknown_live : L
  unknown_live = record {
    state = codes "MANUAL";
    ebpf = codes "DYNAMIC POLLING";
    override = negsuc 0;
    affinity = false;
    interval = zeroed;
  }

  unfoldable pub interval_of : Option Bytes → Refresh reals.Real
  interval_of none = half
  interval_of (some ri) = refresh (reals.atof ri)

  -- the answer to DAEMON_INFO
  unfoldable pub from_info : Bytes → L
  from_info live_info =
      let state = status_upper (state_text (behind live_info "STATE=" 6)) in
      record {
        state = state;
        ebpf =
            if str_eq state (codes "DEFAULT")
            then bpf_text (behind live_info "BPF_ACTIVE=" 11)
            else codes "INACTIVE (MANUAL OVERRIDE)";
        override = override_value (behind live_info "OVERRIDE=" 9);
        affinity = has_mask (behind live_info "MASK=" 5);
        interval = interval_of (behind live_info "REFRESH_INTERVAL=" 17);
      }

  -- the loop over the lines of the settings
  unfoldable pub conf_line : Bytes → L → L
  conf_line line l =
      let with_state =
        if starts_with line (codes "DAEMON_STATE=")
        then record l { state = status_upper (printf_s 64 (drop 13 line)) }
        else l in
      if starts_with line (codes "AFFINITY_MASK=") && not (str_eq (drop 14 line) (codes "none"))
      then record with_state { affinity = true }
      else with_state

  unfoldable pub conf_lines : List Bytes → L → L
  conf_lines [] l = l
  conf_lines (line ∷ lines) l = conf_lines lines (conf_line line l)

  unfoldable pub from_conf : Option Bytes → L
  from_conf none = unknown_live
  from_conf (some []) = unknown_live
  from_conf (some (c ∷ buf)) =
      let l = conf_lines (split_lines (cstr (c ∷ buf))) unknown_live in
      record l {
        ebpf =
            if str_eq l.state (codes "DEFAULT")
            then codes "eBPF/POLLING (ACTIVE)"
            else codes "INACTIVE (SUSPENDED)";
      }
