-- ===== src/Hardware/Affinity.antt =====
-- src/affinity.c: the partitions of the cores, which are control groups below CGROUP_ROOT. `ccd` of the
-- generated code is a parameter.
use x3d_toggle_main.Prelude.{
  ℕ, zero, suc, ◌-◌, take, ◌&&◌, not, Bool, Option, none, some, ◌∷◌, [], ◌++◌, ◌==◌, if◌then◌else◌,
  Bytes, codes, cstr, ℤ, pos, negsuc, String,
}
use x3d_toggle_main.Libc.Strings.Equal.{is_zero}
use x3d_toggle_main.Libc.Bounded.{printf_d}
use x3d_toggle_main.Kernel.{Kernel, wronly}
use x3d_toggle_main.Errors.{err_success, err_cgroup, write_result}

abbrev cgroup_root : String
cgroup_root = "/sys/fs/cgroup/x3d-toggle"

-- `total_cores - 1`
pred : ℤ → ℤ
pred (pos zero) = negsuc 0
pred (pos (suc n)) = pos n
pred (negsuc n) = negsuc (suc n)

module _ (k : Kernel) where
  unfoldable pub cgroup_write_raw : String → Bytes → k.State → k.State × ℤ
  cgroup_write_raw rel_path val s =
      let written = k.write_file wronly (codes cgroup_root ++ b'/' ∷ codes rel_path) (cstr val) s in
      (written.0, write_result err_cgroup err_cgroup written.1)

  unfoldable pub cgroup_write_pid : String → ℤ → k.State → k.State × ℤ
  cgroup_write_pid partition pid s =
      let path = codes cgroup_root ++ b'/' ∷ (codes partition ++ codes "/cgroup.procs") in
      let written = k.write_file wronly path (printf_d 16 pid) s in
      (written.0, write_result err_cgroup err_cgroup written.1)

  unfoldable pub make_partition : String → k.State → k.State × Bool
  make_partition name s = k.mkdir (codes cgroup_root ++ codes name) s

  -- the default cores, and then the memory node, of both partitions
  unfoldable pub assign_cores : Option (Bytes × ℤ × ℤ) → k.State → k.State
  unfolding pred
  assign_cores none s = s
  assign_cores (some (cache_mask, ccd1_start, total_cores)) s =
      let s1 = (cgroup_write_raw "cache/cpuset.cpus" cache_mask s).0 in
      let freq_mask =
        take 127 (printf_d 128 ccd1_start ++ b'-' ∷ printf_d 128 (pred total_cores)) in
      (cgroup_write_raw "frequency/cpuset.cpus" freq_mask s1).0

  unfoldable pub assign_mems : k.State → k.State
  assign_mems s =
      let s1 = (cgroup_write_raw "cache/cpuset.mems" (codes "0") s).0 in
      (cgroup_write_raw "frequency/cpuset.mems" (codes "0") s1).0

  unfoldable pub affinity_init : (k.State → Option (Bytes × ℤ × ℤ)) → k.State → k.State × ℤ
  affinity_init ccd s =
      let cache = make_partition "/cache" s in
      let frequency = make_partition "/frequency" cache.0 in
      if not cache.1
      then (cache.0, err_cgroup)
      else if not frequency.1
      then (frequency.0, err_cgroup)
      else (assign_mems (assign_cores (ccd frequency.0) frequency.0), err_success)

  -- `ccd` gives the mask of CCD0, the first core of CCD1 and the number of cores.
  unfoldable pub affinity_get_topology :
      (k.State → Option (Bytes × ℤ × ℤ)) → ℕ → k.State → Bytes × Bytes
  unfolding pred
  affinity_get_topology ccd size s = elim (ccd s) [
    | none ↦ ([], [])
    | some (cache, start, total) ↦
        (cache, take (size - 1) (printf_d 128 start ++ b'-' ∷ printf_d 128 (pred total)))
  ]

  abbrev pub affinity_default : ℤ → k.State → k.State × ℤ
  affinity_default = cgroup_write_pid ""

  abbrev pub affinity_dual : ℤ → k.State → k.State × ℤ
  affinity_dual = affinity_default

  abbrev pub affinity_swap : ℤ → k.State → k.State × ℤ
  affinity_swap = cgroup_write_pid "frequency"

  unfoldable pub affinity_auto : ℤ → k.State → k.State × ℤ
  affinity_auto pid s =
      let written = k.write_file wronly (codes "/sys/fs/cgroup/cgroup.procs") (printf_d 16 pid) s in
      (written.0, write_result err_cgroup err_cgroup written.1)

  unfoldable pub affinity_partition : ℤ → ℕ → k.State → k.State × ℤ
  affinity_partition pid partition s =
      if partition == 1
      then cgroup_write_pid "cache" pid s
      else if partition == 2
      then cgroup_write_pid "frequency" pid s
      else affinity_default pid s

  unfoldable pub affinity_set_masks : Bytes → Bytes → k.State → k.State × ℤ
  affinity_set_masks cache freq s =
      let (s1, r1) = cgroup_write_raw "cache/cpuset.cpus" cache s in
      let (s2, r2) = cgroup_write_raw "frequency/cpuset.cpus" freq s1 in
      (s2, if is_zero r1 && is_zero r2 then err_success else err_cgroup)
