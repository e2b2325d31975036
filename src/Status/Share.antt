-- ===== src/Status/Share.antt =====
-- `status_cpu` on counters that have not run over.
use x3d_toggle_main.Prelude.{
  ℕ, ◌+◌, ◌-◌, ◌^◌, ◌≤◌, ◌<◌, ◌≡◌, refl, ◌==◌, none, some, if◌then◌else◌, arith,
}
use x3d_toggle_main.Status.{CpuStats, add_u64, sub_u64, all_idle, non_idle, status_cpu}

abbrev pub busy : CpuStats → ℕ
busy st = st.user + st.nice + st.system + st.irq + st.softirq

abbrev pub resting : CpuStats → ℕ
resting st = st.idle + st.iowait

-- the sum of the counters is one of 64 bits
abbrev pub InRange : CpuStats → Type 0
InRange st = busy st + resting st < 2 ^ 64

all_idle_lem : (st : CpuStats) → InRange st → all_idle st ≡ resting st
unfolding all_idle add_u64
all_idle_lem st h = omega arith

add_fits : (a b : ℕ) → a + b < 2 ^ 64 → add_u64 a b ≡ a + b
unfolding add_u64
add_fits a b h = omega arith

non_idle_lem : (st : CpuStats) → InRange st → non_idle st ≡ busy st
unfolding non_idle
non_idle_lem st h =
    let a = add_fits st.user st.nice (omega arith) in
    let b = add_fits (st.user + st.nice) st.system (omega arith) in
    let c = add_fits (st.user + st.nice + st.system) st.irq (omega arith) in
    let d = add_fits (st.user + st.nice + st.system + st.irq) st.softirq (omega arith) in
    rw (a, b, c, d) refl

sub_fits : (a b : ℕ) → b ≤ a → a < 2 ^ 64 → sub_u64 a b ≡ a - b
unfolding sub_u64
sub_fits a b h lt = omega arith

-- If the sums of the counters stay below 2 ^ 64, and neither the busy nor the idle time has gone
-- down, then the share is the busy time that has passed over all the time that has passed, and 0
-- where no time has passed.
pub status_cpu-share :
    (prev curr : CpuStats)
    → InRange prev
    → InRange curr
    → busy prev ≤ busy curr
    → resting prev ≤ resting curr
    → status_cpu prev curr ≡ (
        let passed = (busy curr - busy prev) + (resting curr - resting prev) in
        if passed == 0 then none else some (busy curr - busy prev, passed))
unfolding status_cpu
status_cpu-share prev curr hp hc hb hr =
    let pi = all_idle_lem prev hp in
    let ci = all_idle_lem curr hc in
    let pn = non_idle_lem prev hp in
    let cn = non_idle_lem curr hc in
    let pt = add_fits (resting prev) (busy prev) (omega arith) in
    let ct = add_fits (resting curr) (busy curr) (omega arith) in
    let di = sub_fits (resting curr) (resting prev) hr (omega arith) in
    let dt =
      sub_fits (resting curr + busy curr) (resting prev + busy prev) (omega arith) (omega arith) in
    let passed : (resting curr + busy curr) - (resting prev + busy prev)
        ≡ (busy curr - busy prev) + (resting curr - resting prev) =
      omega arith in
    let all = (busy curr - busy prev) + (resting curr - resting prev) in
    let share = sub_fits all (resting curr - resting prev) (omega arith) (omega arith) in
    let rest : all - (resting curr - resting prev) ≡ busy curr - busy prev = omega arith in
    rw (pi, ci, pn, cn, pt, ct, di, dt, passed, share, rest) refl
