-- ===== src/Status.antt =====
-- src/status.c: `status_cpu`, the share of the time between two samples of /proc/stat that the
-- processor was busy. The quotient of the two `double`s is the pair of their values; `none` stands
-- for 0.0 where no time has passed.
pub mod Share
pub mod Info
pub mod Report
pub mod Online
pub mod Cut
pub mod Agrees
pub mod Sample
use x3d_toggle_main.Prelude.{ℕ, ◌+◌, ◌-◌, ◌%◌, ◌^◌, ◌==◌, Option, none, some, if◌then◌else◌}

pub record CpuStats : Type 0 where
  pub user : ℕ
  pub nice : ℕ
  pub system : ℕ
  pub idle : ℕ
  pub iowait : ℕ
  pub irq : ℕ
  pub softirq : ℕ

-- `unsigned long long`
unfoldable pub add_u64 : ℕ → ℕ → ℕ
add_u64 a b = (a + b) % 2 ^ 64

unfoldable pub sub_u64 : ℕ → ℕ → ℕ
sub_u64 a b = (a + 2 ^ 64 - b) % 2 ^ 64

unfoldable pub all_idle : CpuStats → ℕ
all_idle st = add_u64 st.idle st.iowait

unfoldable pub non_idle : CpuStats → ℕ
non_idle st = add_u64 (add_u64 (add_u64 (add_u64 st.user st.nice) st.system) st.irq) st.softirq

unfoldable pub status_cpu : CpuStats → CpuStats → Option (ℕ × ℕ)
status_cpu prev curr =
    let p_total = add_u64 (all_idle prev) (non_idle prev) in
    let c_total = add_u64 (all_idle curr) (non_idle curr) in
    let diff_total = sub_u64 c_total p_total in
    let diff_idle = sub_u64 (all_idle curr) (all_idle prev) in
    if diff_total == 0 then none else some (sub_u64 diff_total diff_idle, diff_total)
