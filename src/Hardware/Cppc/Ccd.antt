-- ===== src/Hardware/Cppc/Ccd.antt =====
-- The two halves of the cores: `cppc_ccd` for both of them is `cppc_epp`.
use x3d_toggle_main.Prelude.{
  ℕ, zero, suc, ◌+◌, ◌-◌, ◌≤◌, ◌≡◌, refl, sym, ap, ◌∙◌, Bool, true, false, String, Bytes, cstr, ℤ,
  pos, if◌then◌else◌, ◌&&◌, arith,
}
use x3d_toggle_main.Libc.Strings.Equal.{is_zero}
use x3d_toggle_main.Kernel.{Kernel, wronly}
use x3d_toggle_main.Errors.{err_success, err_io}
use x3d_toggle_main.Hardware.{Topology, cpu_path}
use x3d_toggle_main.Hardware.Cppc.{write_failed, write_cores, cppc_epp, cppc_ccd}

module _ (k : Kernel) (cores : Topology) (node : String) (val : Bytes) where
  -- a loop over `a + b` cores is one over `a` cores and one over `b` cores behind it
  write_cores-split :
      (a b i : ℕ) (ret : ℤ) (s : k.State)
      → write_cores k cores node val (a + b) i ret s ≡ (
          let first = write_cores k cores node val a i ret s in
          write_cores k cores node val b (i + a) first.1 first.0)
  unfolding write_cores
  write_cores-split zero b i ret s =
      let nothing : 0 + b ≡ b = omega arith in
      let here : i ≡ i + 0 = omega arith in rw (nothing, ← here) refl
  write_cores-split (suc a) b i ret s =
      let written = k.write_file wronly (cpu_path (pos i) node) val s in
      let ret1 = if write_failed written.1 then err_io else ret in
      let first = write_cores k cores node val a (i + 1) ret1 written.0 in
      let more : suc a + b ≡ suc (a + b) = omega arith in
      let next : (i + 1) + a ≡ i + suc a = omega arith in
      ap (λ n. write_cores k cores node val n i ret s) more
      ∙ write_cores-split a b (i + 1) ret1 written.0
      ∙ ap (λ j. write_cores k cores node val b j first.1 first.0) next

  -- what is written does not depend on `ret`
  write_cores-state :
      (n i : ℕ) (ret ret' : ℤ) (s : k.State)
      → (write_cores k cores node val n i ret s).0 ≡ (write_cores k cores node val n i ret' s).0
  unfolding write_cores
  write_cores-state zero i ret ret' s = refl
  write_cores-state (suc n) i ret ret' s = write_cores-state n (i + 1) _ _ _

  -- and `ret` is kept unless a write fails
  write_cores-result :
      (n i : ℕ) (ret : ℤ) (s : k.State)
      → is_zero (write_cores k cores node val n i ret s).1
        ≡ (is_zero ret && is_zero (write_cores k cores node val n i err_success s).1)
  unfolding write_cores
  write_cores-result zero i ret s = ground arith
  write_cores-result (suc n) i ret s =
      let written = k.write_file wronly (cpu_path (pos i) node) val s in
      step (write_failed written.1) written.0 (λ r. write_cores-result n (i + 1) r written.0)
    where
      step :
          (failed : Bool) (s1 : k.State)
          → ((r : ℤ)
              → is_zero (write_cores k cores node val n (i + 1) r s1).1
                ≡ (is_zero r && is_zero (write_cores k cores node val n (i + 1) err_success s1).1))
          → is_zero (write_cores k cores node val n (i + 1) (if failed then err_io else ret) s1).1
            ≡ (is_zero ret
                && is_zero
                    (write_cores k cores node val n
                      (i + 1)
                      (if failed then err_io else err_success)
                      s1).1)
      step true s1 later = ground (arith, later err_io)
      step false s1 later = later ret

-- If CCD1 does not start behind the last core, then `cppc_ccd` for CCD0 and then for another CCD
-- leaves the kernel as `cppc_epp` does for all cores, and `cppc_epp` returns success if and only if
-- both calls do.
cppc_ccd-cppc_epp :
    (k : Kernel) (cores : Topology) (ccd : ℤ) (val : Bytes) (s : k.State)
    → cores.ccd1_start ≤ cores.total_cores
    → is_zero ccd ≡ false
    → (let first = cppc_ccd k cores (pos 0) val s in
        let second = cppc_ccd k cores ccd val first.0 in
        let all = cppc_epp k cores val s in
        (second.0 ≡ all.0) × (is_zero all.1 ≡ (is_zero first.1 && is_zero second.1)))
unfolding cppc_ccd cppc_epp
cppc_ccd-cppc_epp k cores ccd val s h other =
    let c1 = cores.ccd1_start in
    let node : String = "/cpufreq/energy_performance_preference" in
    let first = write_cores k cores node (cstr val) c1 0 err_success s in
    let rest = cores.total_cores - c1 in
    let sum : cores.total_cores ≡ c1 + rest = omega arith in
    let behind : 0 + c1 ≡ c1 = omega arith in
    let all_of_ccd0 : c1 - 0 ≡ c1 = omega arith in
    let whole : write_cores k cores node (cstr val) cores.total_cores 0 err_success s
        ≡ write_cores k cores node (cstr val) rest c1 first.1 first.0 =
      ap (λ n. write_cores k cores node (cstr val) n 0 err_success s) sum
      ∙ write_cores-split k cores node (cstr val) c1 rest 0 err_success s
      ∙ ap (λ j. write_cores k cores node (cstr val) rest j first.1 first.0) behind in
    let state = write_cores-state k cores node (cstr val) rest c1 err_success first.1 first.0 in
    let result = write_cores-result k cores node (cstr val) rest c1 first.1 first.0 in
    rw (other, all_of_ccd0)
      (state ∙ sym (ap (λ r. r.0) whole), ap (λ r. is_zero r.1) whole ∙ result)
