-- ===== src/Hardware/Scheduler.antt =====
-- src/scheduler.c: the profiles of the scheduler. The names of the nodes are constants that fit
-- the buffer for the path, and `close` does not fail.
use x3d_toggle_main.Prelude.{
  ℕ, Bool, true, false, not, Option, none, some, ◌++◌, ◌==◌, if◌then◌else◌, codes, length, ℤ, pos,
  negsuc, String,
}
use x3d_toggle_main.Kernel.{Kernel, wronly, exists}

pub data SchedT : Type 0 where
  sched_balanced sched_gaming : SchedT

-- `written < 0 || (size_t)written != len`
unfoldable pub wrote_all : ℕ → Option ℤ → Bool
wrote_all len none = false
wrote_all len (some (pos n)) = n == len
wrote_all len (some (negsuc n)) = false

module _ (k : Kernel) where
  -- whether the result was 0
  unfoldable pub sysctl_kernel_write : String → String → k.State → k.State × Bool
  sysctl_kernel_write node value s =
      let written = k.write_file wronly (codes "/proc/sys/kernel/" ++ codes node) (codes value) s in
      (written.0, wrote_all (length (codes value)) written.1)

  unfoldable pub scheduler_check : k.State → Bool
  scheduler_check s = k.access exists (codes "/proc/sys/kernel/sched_bore") s

  -- the three writes of one profile
  profile : String → String → String → k.State → k.State × Bool
  profile slice bore shift s =
      let first = sysctl_kernel_write "sched_cfs_bandwidth_slice_us" slice s in
      let second = sysctl_kernel_write "sched_bore" bore first.0 in
      let third = sysctl_kernel_write "sched_bit_shift" shift second.0 in
      if not first.1
      then (first.0, false)
      else if not (scheduler_check first.0)
      then (first.0, true)
      else if not second.1
      then (second.0, false)
      else third

  unfoldable pub scheduler_set : SchedT → k.State → k.State × Bool
  unfolding profile
  scheduler_set mode s =
      if k.geteuid s == 0
      then elim mode [
        | sched_gaming ↦ profile "3000" "1" "14" s
        | sched_balanced ↦ profile "5000" "0" "12" s
      ]
      else (s, false)
