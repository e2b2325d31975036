-- ===== src/Status/Report.antt =====
-- src/status.c: `daemon_status`, the report of the daemon, the node of the mode and the files of /sys.
-- The sizes of its texts are the BUFF_ macros of scripts/framework/xui.sh. `denied` says whether the
-- last call that failed left EACCES in `errno`.
use x3d_toggle_main.Prelude.{
  ℕ, ◌-◌, Bool, false, not, ◌&&◌, ◌||◌, ◌==◌, Option, none, some, [], ◌∷◌, if◌then◌else◌, Bytes,
  codes, cstr, deref, ℤ, pos, negsuc,
}
use x3d_toggle_main.Libc.Strings.Equal.{is_zero, str_eq}
use x3d_toggle_main.Libc.Bounded.{printf_s}
use x3d_toggle_main.Kernel.{Kernel, exists}
use x3d_toggle_main.Config.Load.{Reals}
use x3d_toggle_main.Hardware.{cpu_path}
use x3d_toggle_main.Hardware.Modes.{mode}
use x3d_toggle_main.Socket.State.{Host}
use x3d_toggle_main.Socket.Modes.{has_text}
use x3d_toggle_main.Client.{World, socket_probe, socket_query, world_kernel}
use x3d_toggle_main.Status.Info.{Refresh, Live, status_upper, from_info, from_conf}

pub data Icon : Type 0 where
  query cached frequ chicken hut pinned topswap dualize stopsign manual xout padlock : Icon

pub record Status (A : Type 0) : Type 0 where
  pub d_mode : Bytes
  pub daemon_state : Bytes
  pub ipc_status : Bytes
  pub ebpf_status : Bytes
  pub c_mode : Bytes
  pub ccd_state : Bytes
  pub st_buff : Bytes
  pub st_buff_ccd0 : Bytes
  pub st_buff_ccd1 : Bytes
  pub d_buff : Bytes
  pub epp : Bytes
  pub gov : Bytes
  pub smt : Bytes
  pub plat : Bytes
  pub refresh_interval : Refresh A
  pub d_icon : Icon
  pub c_icon : Icon
  pub ccd_icon : Icon

-- up to the first newline or carriage return
unfoldable pub cut_eol : Bytes → Bytes
cut_eol [] = []
cut_eol (c ∷ s) = if c == b'\n' || c == b'\r' then [] else c ∷ cut_eol s

-- what `out` holds after the read of a file, `none` where it is not opened
unfoldable pub sysfs_read : ℕ → Option Bytes → Bytes
sysfs_read max_len none = printf_s max_len (codes "N/A")
sysfs_read max_len (some []) = printf_s max_len (codes "N/A")
sysfs_read max_len (some (c ∷ rest)) = cstr (cut_eol (c ∷ rest))

module _ (reals : Reals) (k : Kernel) (host : Host reals k) where
  abbrev W : Type 0
  W = World reals k

  abbrev L : Type 0
  L = Live reals.Real

  -- 0 where the daemon answers, 1 where nothing shows that it runs, 2 where it does not answer and
  -- 3 where it may not be asked
  unfoldable pub daemon_active : Bool → W → W × ℕ
  daemon_active denied w =
      let s = world_kernel reals k host w in
      let res = socket_probe reals k host w in
      if not (k.access exists (codes "/run/x3d-toggle/x3d-toggle.ipc") s)
        && not (k.access exists (codes "/var/run/x3d-toggle.pid") s)
      then (w, 1)
      else if is_zero res.1
      then (res.0, 0)
      else if denied
      then (res.0, 3)
      else (res.0, 2)

  unfoldable pub live_of : Bytes → k.State → Option Bytes → L
  live_of conf_path s none = from_conf reals (k.read_file conf_path 4095 s)
  live_of conf_path s (some live_info) = from_info reals live_info

  -- what `b0` holds decides
  unfoldable pub ccd_text : Option Bytes → Bytes
  ccd_text none = codes "ONLINE"
  ccd_text (some b0) = if deref b0 == b'0' then codes "PARKED" else codes "ONLINE"

  -- the icon and the text of the mode
  unfoldable pub mode_shown : Bytes → Icon × Bytes
  mode_shown c_mode =
      if has_text c_mode "CACHE"
      then (cached, codes "CACHE")
      else if has_text c_mode "FREQUENCY"
      then (frequ, codes "FREQUENCY")
      else if has_text c_mode "AUTO" || has_text c_mode "CPPC"
      then (chicken, codes "CPPC")
      else (query, codes "UNKNOWN")

  unfoldable pub ccd_shown : L → Bytes → Icon × Bytes
  ccd_shown l ccd1_st =
      if l.affinity
      then (pinned, codes "AFFINITY PINNED")
      else if str_eq ccd1_st (codes "ONLINE")
      then (if is_zero_four l.override
          then (topswap, codes "INVERTED")
          else (dualize, codes "FULL THROUGHPUT"))
      else (pinned, codes "CCD ISOLATED")
    where
      is_zero_four : ℤ → Bool
      is_zero_four (pos n) = n == 4
      is_zero_four (negsuc n) = false

  -- the icon, `ipc_status`, `d_mode` and `ebpf_status` of a state that `daemon_active` gives
  unfoldable pub daemon_shown : ℕ → L → Icon × (Bytes × (Bytes × Bytes))
  daemon_shown daemon_state l =
      if daemon_state == 0
      then (if str_eq l.state (codes "DEFAULT")
          then (chicken, (codes "SOCKET ONLINE", (codes "ACTIVE", l.ebpf)))
          else if str_eq l.state (codes "HARD_RESET") || str_eq l.state (codes "AUTO")
          then (stopsign, (codes "SOCKET ONLINE", (codes "CPPC NATIVE", l.ebpf)))
          else (manual, (codes "SOCKET ONLINE", (codes "SUSPENDED", l.ebpf))))
      else if daemon_state == 2
      then (xout, (codes "SOCKET OFFLINE", (codes "FAILED (NO IPC)", codes "INACTIVE")))
      else if daemon_state == 3
      then (
        padlock,
        (codes "ACCESS DENIED", (codes "PERMISSION ERROR", codes "INACTIVE (RE-AUTH REQ)")),
      )
      else (stopsign, (codes "SOCKET OFFLINE", (codes "STOPPED", codes "INACTIVE")))

  unfoldable pub status_sysfs : Bytes → ℕ → k.State → Bytes
  status_sysfs path max_len s = sysfs_read max_len (k.read_file path (max_len - 1) s)

  -- the fields that do not depend on the daemon
  unfoldable pub report : k.State → ℕ → L → Status reals.Real
  report s daemon_state l =
      let raw = mode k 64 (codes "n/a") (record { kernel = s; x3d_path_cache = none }) in
      let boost = status_sysfs (codes "/sys/devices/system/cpu/cpufreq/boost") 64 s in
      let ccd1_st = ccd_text (k.read_file (cpu_path (pos host.cores.ccd1_start) "/online") 15 s) in
      let mode_line = mode_shown (status_upper (printf_s 64 raw.1.0)) in
      let ccd_line = ccd_shown l ccd1_st in
      let daemon_line = daemon_shown daemon_state l in
      record {
        d_mode = daemon_line.1.1.0;
        daemon_state = l.state;
        ipc_status = daemon_line.1.0;
        ebpf_status = daemon_line.1.1.1;
        c_mode = mode_line.1;
        ccd_state = ccd_line.1;
        st_buff = if str_eq boost (codes "1") then codes "ENABLED" else codes "DISABLED";
        st_buff_ccd0 = ccd_text (k.read_file (cpu_path (pos 0) "/online") 15 s);
        st_buff_ccd1 = ccd1_st;
        d_buff =
            status_upper (status_sysfs (codes "/sys/devices/system/cpu/amd_pstate/status") 64 s);
        epp = status_upper (
            status_sysfs
              (codes "/sys/devices/system/cpu/cpu0/cpufreq/energy_performance_preference") 64 s);
        gov =
            status_upper
              (status_sysfs (codes "/sys/devices/system/cpu/cpu0/cpufreq/scaling_governor") 64 s);
        smt = status_upper (status_sysfs (codes "/sys/devices/system/cpu/smt/control") 64 s);
        plat = status_upper (status_sysfs (codes "/sys/firmware/acpi/platform_profile") 64 s);
        refresh_interval = l.interval;
        d_icon = daemon_line.0;
        c_icon = mode_line.0;
        ccd_icon = ccd_line.0;
      }

  -- behind `daemon_active`: DAEMON_INFO is asked where the daemon answers
  unfoldable pub status_of : Bytes → W × ℕ → W × Status reals.Real
  status_of conf_path (w, daemon_state) =
      let asked = socket_query reals k host (codes "DAEMON_INFO") 128 w in
      let s = world_kernel reals k host w in
      if daemon_state == 0
      then (asked.0, report s daemon_state (live_of conf_path s asked.1))
      else (w, report s daemon_state (live_of conf_path s none))

  -- `daemon_status` of a `st` that is not NULL; it returns 0
  unfoldable pub daemon_status : Bytes → Bool → W → W × Status reals.Real
  daemon_status conf_path denied w = status_of conf_path (daemon_active denied w)
