-- ===== src/Socket/Advanced.antt =====
-- src/socket.c: ADVANCED_GET and ADVANCED_SET, which read and write the nodes of the kernel.
use x3d_toggle_main.Prelude.{Option, none, some, List, [], ◌∷◌, if◌then◌else◌, Bytes, codes, cstr}
use x3d_toggle_main.Libc.Strings.Equal.{str_eq}
use x3d_toggle_main.Libc.Numbers.{atoi}
use x3d_toggle_main.Libc.Bounded.{printf_s}
use x3d_toggle_main.Libc.Sysctl.{sysctl_read, sysctl_write}
use x3d_toggle_main.Kernel.{Kernel}
use x3d_toggle_main.Config.Fields.{
  Field, sched_bore, sched_bit_shift, sched_burst_fork, sched_slice_us, vm_max_map,
  split_lock_detect, nmi_watchdog, thp_mode, net_qdisc, net_fastopen, net_rp_filter,
  net_source_route, key_name,
}
use x3d_toggle_main.Config.Load.{Reals, Value, int, text, assign}
use x3d_toggle_main.Socket.State.{Host, Daemon, Outcome, set_kernel, answer, answer_if}
use x3d_toggle_main.Socket.Tuning.{split_blank, with_split}
use x3d_toggle_main.Socket.Settings.{save}

-- The nodes that can be read and set.
pub data Node : Type 0 where
  bore bit_shift burst_fork slice max_map split_lock watchdog qdisc fastopen : Node
  rp_filter source_route thp : Node

unfoldable pub node_key : Node → Bytes
node_key bore = codes "kernel.sched_bore"
node_key bit_shift = codes "kernel.sched_bit_shift"
node_key burst_fork = codes "kernel.sched_burst_fork_at_init"
node_key slice = codes "kernel.sched_cfs_bandwidth_slice_us"
node_key max_map = codes "vm.max_map_count"
node_key split_lock = codes "kernel.split_lock_mitigate"
node_key watchdog = codes "kernel.nmi_watchdog"
node_key qdisc = codes "net.core.default_qdisc"
node_key fastopen = codes "net.ipv4.tcp_fastopen"
node_key rp_filter = codes "net.ipv4.conf.all.rp_filter"
node_key source_route = codes "net.ipv4.conf.all.accept_source_route"
node_key thp = codes "target_thp_mode"

unfoldable pub node_path : Node → Bytes
node_path bore = codes "/proc/sys/kernel/sched_bore"
node_path bit_shift = codes "/proc/sys/kernel/sched_bit_shift"
node_path burst_fork = codes "/proc/sys/kernel/sched_burst_fork_at_init"
node_path slice = codes "/proc/sys/kernel/sched_cfs_bandwidth_slice_us"
node_path max_map = codes "/proc/sys/vm/max_map_count"
node_path split_lock = codes "/proc/sys/kernel/split_lock_mitigate"
node_path watchdog = codes "/proc/sys/kernel/nmi_watchdog"
node_path qdisc = codes "/proc/sys/net/core/default_qdisc"
node_path fastopen = codes "/proc/sys/net/ipv4/tcp_fastopen"
node_path rp_filter = codes "/proc/sys/net/ipv4/conf/all/rp_filter"
node_path source_route = codes "/proc/sys/net/ipv4/conf/all/accept_source_route"
node_path thp = codes "/sys/kernel/mm/transparent_hugepage/enabled"

-- the field that ADVANCED_SET assigns, whose key is also what it saves the value under
unfoldable pub node_field : Node → Field
node_field bore = sched_bore
node_field bit_shift = sched_bit_shift
node_field burst_fork = sched_burst_fork
node_field slice = sched_slice_us
node_field max_map = vm_max_map
node_field split_lock = split_lock_detect
node_field watchdog = nmi_watchdog
node_field qdisc = net_qdisc
node_field fastopen = net_fastopen
node_field rp_filter = net_rp_filter
node_field source_route = net_source_route
node_field thp = thp_mode

-- in the order of the chains
unfoldable pub nodes : List Node
nodes =
    bore ∷ bit_shift ∷ burst_fork ∷ slice ∷ max_map ∷ split_lock ∷ watchdog ∷ qdisc ∷ fastopen
    ∷ rp_filter ∷ source_route ∷ thp ∷ []

unfoldable pub find_node : Bytes → List Node → Option Node
find_node key [] = none
find_node key (n ∷ ns) = if str_eq key (node_key n) then some n else find_node key ns

module _ (reals : Reals) (k : Kernel) (host : Host reals k) where
  abbrev D : Type 0
  D = Daemon reals k

  abbrev Out : Type 0
  Out = Outcome reals k

  unfoldable pub read_node : Option Node → k.State → Option Bytes
  read_node none s = none
  read_node (some n) s = sysctl_read k (node_path n) 128 s

  unfoldable pub answer_node : Option Bytes → D → Out
  answer_node none d = answer (codes "ERR") d
  answer_node (some val) d = answer (cstr val) d

  unfoldable pub handle_advanced_get : Bytes → D → Out
  handle_advanced_get key d = answer_node (read_node (find_node key nodes) d.machine.kernel) d

  unfoldable pub node_value : Node → Bytes → Value reals.Real
  node_value qdisc val = text (printf_s 31 val)
  node_value thp val = text (printf_s 15 val)
  node_value _ val = int (atoi val)

  -- the field is set before the node is written, and saved only if that succeeds
  unfoldable pub set_node : Node → Bytes → D → Out
  set_node n val d =
      let written = sysctl_write k (node_path n) val d.machine.kernel in
      let d1 : D = record (set_kernel written.0 d) {
        cfg = assign d.cfg (node_field n) (node_value n val);
      } in
      answer_if written.1
        (if written.1 then save reals k host (key_name (node_field n)) val d1 else d1)

  unfoldable pub set_found_node : Option Node → Bytes → D → Out
  set_found_node none val d = answer (codes "ERR") d
  set_found_node (some n) val d = set_node n val d

  unfoldable pub handle_advanced_set : Bytes → D → Out
  handle_advanced_set arg d =
      with_split reals k host (split_blank arg) d
        (λ key val. set_found_node (find_node key nodes) val d)
