-- ===== src/Socket/Tuning.antt =====
-- src/socket.c: the requests that set the topology, the scaling and the cores that are online.
use x3d_toggle_main.Prelude.{
  ℕ, zero, suc, ◌+◌, ◌-◌, Bool, true, false, not, ◌||◌, ◌&&◌, Option, none, some, ◌++◌, ◌==◌,
  if◌then◌else◌, Bytes, codes, cstr, take, drop, length, ℤ, pos, negsuc,
}
use x3d_toggle_main.Libc.Strings.{strchr}
use x3d_toggle_main.Libc.Strings.Equal.{is_zero, str_eq}
use x3d_toggle_main.Kernel.{Kernel}
use x3d_toggle_main.Errors.{err_success}
use x3d_toggle_main.Config.Load.{Reals}
use x3d_toggle_main.Hardware.Modes.{Machine, cli_set_core, cli_set_dual}
use x3d_toggle_main.Hardware.Cppc.{
  cppc_perf, cppc_boost, cppc_tdp, cppc_epp, cppc_ccd, cppc_pstate, cppc_governor, cppc_prefcore,
}
use x3d_toggle_main.Hardware.Affinity.{affinity_get_topology, affinity_set_masks}
use x3d_toggle_main.Socket.Number.{Number, faulted, refused, number, parse_number, parse_perf}
use x3d_toggle_main.Socket.State.{
  Host, Daemon, Outcome, fault, answer, answer_kernel, answer_machine,
}
use x3d_toggle_main.Socket.Modes.{has_text}

-- `strchr(s, ' ')` splits the argument: what is before the blank and what is behind it.
unfoldable pub split_found : Bytes → Option Bytes → Option (Bytes × Bytes)
split_found s none = none
split_found s (some p) = some (take (length s - length p) s, drop 1 p)

unfoldable pub split_blank : Bytes → Option (Bytes × Bytes)
split_blank s = split_found s (strchr (some s) b' ')

-- `r != ERR_SUCCESS && r != ERR_LOST`; `cli_set_core` does not return ERR_LOST
is_lost : ℤ → Bool
is_lost (pos n) = false
is_lost (negsuc n) = n == 0

module _ (reals : Reals) (k : Kernel) (host : Host reals k) where
  abbrev D : Type 0
  D = Daemon reals k

  abbrev Out : Type 0
  Out = Outcome reals k

  unfoldable pub handle_get_topology : D → Out
  handle_get_topology d =
      let (cache, freq) = affinity_get_topology k host.ccd 128 d.machine.kernel in
      answer (take 511 (codes "CACHE=" ++ cstr cache ++ codes ";FREQ=" ++ freq)) d

  -- A branch that takes two texts with a blank between them, and what it does with them.
  unfoldable pub with_split : Option (Bytes × Bytes) → D → (Bytes → Bytes → Out) → Out
  with_split none d go = answer (codes "ERR") d
  with_split (some (l, r)) d go = go l r

  unfoldable pub handle_set_affinity : Bytes → D → Out
  handle_set_affinity arg d =
      with_split (split_blank arg) d
        (λ cache freq. answer_kernel d (affinity_set_masks k cache freq d.machine.kernel))

  -- A branch that takes a number: its faults and mistakes, and what it does with the number.
  unfoldable pub with_number : Number → D → (ℤ → Out) → Out
  with_number faulted d go = fault
  with_number refused d go = answer (codes "ERR") d
  with_number (number n) d go = go n

  unfoldable pub handle_set_cppc : Bytes → D → Out
  handle_set_cppc arg d =
      with_number (parse_perf arg) d
        (λ n. answer_kernel d (cppc_perf k host.cores n d.machine.kernel))

  unfoldable pub handle_set_boost : Bytes → D → Out
  handle_set_boost arg d =
      answer_kernel d (cppc_boost k host.cores (has_text arg "on") d.machine.kernel)

  -- The loop over `count` cores from `i` on, with `ret`.
  unfoldable pub park_cores : ℕ → ℕ → ℤ → Machine k → Machine k × ℤ
  unfolding is_lost
  park_cores zero i ret m = (m, ret)
  park_cores (suc count) i ret m =
      let (m1, r) = cli_set_core k (pos i) false m in
      park_cores count (i + 1) (if not (is_zero r) && not (is_lost r) then r else ret) m1

  unfoldable pub handle_set_park : Bytes → D → Out
  handle_set_park arg d =
      if str_eq arg (codes "ccd1")
      then (let start = host.cores.ccd1_start in
          answer_machine d
            (park_cores (host.cores.total_cores - start) start err_success d.machine))
      else with_number (parse_number arg) d
          (λ n. answer_machine d (cli_set_core k n false d.machine))

  unfoldable pub handle_set_unpark : Bytes → D → Out
  handle_set_unpark arg d =
      if str_eq arg (codes "ccd1") || str_eq arg (codes "all")
      then answer_machine d (cli_set_dual k d.machine)
      else with_number (parse_number arg) d
          (λ n. answer_machine d (cli_set_core k n true d.machine))

  unfoldable pub handle_set_tdp : Bytes → D → Out
  handle_set_tdp arg d =
      with_number (parse_number arg) d
        (λ n. answer_kernel d (cppc_tdp k host.cores n d.machine.kernel))

  unfoldable pub handle_set_epp : Bytes → D → Out
  handle_set_epp arg d = answer_kernel d (cppc_epp k host.cores arg d.machine.kernel)

  unfoldable pub handle_set_epp_ccd : Bytes → D → Out
  handle_set_epp_ccd arg d = with_split (split_blank arg) d (λ ccd_str val.
      with_number (parse_number ccd_str) d
        (λ ccd. answer_kernel d (cppc_ccd k host.cores ccd val d.machine.kernel)))

  unfoldable pub handle_set_pstate : Bytes → D → Out
  handle_set_pstate arg d = answer_kernel d (cppc_pstate k host.cores arg d.machine.kernel)

  unfoldable pub handle_set_governor : Bytes → D → Out
  handle_set_governor arg d = answer_kernel d (cppc_governor k host.cores arg d.machine.kernel)

  unfoldable pub handle_set_prefcore : Bytes → D → Out
  handle_set_prefcore arg d =
      answer_kernel d
        (cppc_prefcore k host.cores (has_text arg "on" || has_text arg "1") d.machine.kernel)
