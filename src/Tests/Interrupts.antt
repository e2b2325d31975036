-- ===== src/Tests/Interrupts.antt =====
-- The theorems on the interrupts of src/irq.c, at concrete inputs.
use x3d_toggle_main.Prelude.{
  ◌≡◌, refl, false, none, if◌then◌else◌, true, some, List, [], ◌∷◌, ◌++◌, ℤ, pos, Bytes, codes,
  cstr, All, arith, take, length, ◌≤◌,
}
use x3d_toggle_main.Libc.Bounded.{printf_d, itoa}
use x3d_toggle_main.Libc.Numbers.{atoi}
use x3d_toggle_main.Errors.{is_positive}
use x3d_toggle_main.Lines.{split_lines}
use x3d_toggle_main.Kernel.Memory.{bytes_eq, Files}
use x3d_toggle_main.Irq.Config.{
  file_exists, line_read, read_file_line, write_file, parsed_config, load_config, config_read,
  parse_conf_int, search_key, number_at,
}
use x3d_toggle_main.Irq.Discover.{interrupts_path, discover_irqs}
use x3d_toggle_main.Irq.Masks.{
  mask_path, orig_path, save_mask, save_original_mask, apply_affinity, apply_list, restore_list,
}
use x3d_toggle_main.Irq.Bind.{irq_balancer_state, Irqs, fresh, fresh_config, irq_init}
use x3d_toggle_main.Irq.Peripherals.{remove_rules, cli_irq_reset}
use x3d_toggle_main.Irq.Watch.{watch_round, cli_irq_watch}
use x3d_toggle_main.Irq.Memory.{irq_kernel, irq-HasMasks, irq-IsQuiet}
use x3d_toggle_main.Irq.Nodes.{IsLine}
use x3d_toggle_main.Irq.Apart.{AllDifferent}
use x3d_toggle_main.Irq.Reassert.{watch_round-Shows, cli_irq_watch-irq_init}
use x3d_toggle_main.Libc.Bounded.{printf_s}
use x3d_toggle_main.Libc.Strings.{strstr}
use x3d_toggle_main.Libc.Strings.Equal.{is_zero}
use x3d_toggle_main.Irq.Listed.{device_irqs, discover_irqs-device_irqs}
use x3d_toggle_main.Irq.RestoreLists.{
  GoodMasks, ShowAll, restore_list-apply_list, restore_list_bound_twice,
}
use x3d_toggle_main.Irq.Teardown.{bound_irqs, cli_irq_reset-bound}

-- two interrupts, which all cores may handle
abbrev two_irqs : List ℤ
two_irqs = pos 24 ∷ pos 25 ∷ []

abbrev all_cores : Bytes
all_cores = codes "0-15"

-- every file there is shows all cores
abbrev proc_files : Files
proc_files path = some all_cores

all_cores-Good : IsLine all_cores × irq-HasMasks.Accepts all_cores
all_cores-Good = (((λ e. cc), omega arith, ground arith), tt)

two_irqs-Good : GoodMasks irq_kernel irq-HasMasks (λ _. all_cores) two_irqs
two_irqs-Good = (all_cores-Good, (all_cores-Good, tt))

two_irqs-Different : AllDifferent two_irqs
two_irqs-Different =
    (omega arith, (((omega arith, λ e. ground (arith, e)), tt)), (omega arith, tt, tt))

restore_list-apply_list_example :
    ShowAll irq_kernel irq-HasMasks
      (λ _. printf_d 16 (pos 3))
      (apply_list irq_kernel two_irqs (pos 3) proc_files)
      two_irqs
    × ShowAll irq_kernel irq-HasMasks
        (λ _. all_cores)
        (restore_list irq_kernel two_irqs (apply_list irq_kernel two_irqs (pos 3) proc_files))
        two_irqs
restore_list-apply_list_example =
    restore_list-apply_list irq_kernel irq-HasMasks two_irqs (pos 3) (λ _. all_cores) proc_files
      two_irqs-Different two_irqs-Good tt (refl, (refl, tt))

restore_list_bound_twice_example :
    ShowAll irq_kernel irq-HasMasks
      (λ _. printf_d 16 (pos 3))
      (restore_list irq_kernel two_irqs (
        apply_list irq_kernel two_irqs (pos 3) (apply_list irq_kernel two_irqs (pos 3) proc_files)))
      two_irqs
restore_list_bound_twice_example =
    restore_list_bound_twice irq_kernel irq-HasMasks two_irqs (pos 3) (λ _. all_cores) proc_files
      two_irqs-Different two_irqs-Good (omega arith) tt (refl, (refl, tt))

-- the interrupts of a graphics card, bound to core 3
abbrev bound : Irqs irq_kernel
bound = record (fresh irq_kernel proc_files) {
  cfg = record (fresh_config) { irq_enable = pos 1; target_core = pos 3 };
  gpu_irqs = two_irqs;
}

-- the same files where irqbalance did not run
abbrev idle_files : Files
idle_files path = if bytes_eq path irq_balancer_state then none else some all_cores

one_irq-Shows : ShowAll irq_kernel irq-HasMasks (λ _. all_cores) idle_files (pos 24 ∷ [])
unfolding mask_path itoa printf_d printf_s cstr
one_irq-Shows = (refl, tt)

stays_idle :
    file_exists irq_kernel irq_balancer_state
      (remove_rules irq_kernel (apply_list irq_kernel (pos 24 ∷ []) (pos 3) idle_files))
    ≡ false
unfolding file_exists remove_rules apply_list apply_affinity save_original_mask read_file_line
    write_file mask_path orig_path itoa printf_d printf_s cstr save_mask line_read
stays_idle = refl

cli_irq_reset-bound_example :
    ShowAll irq_kernel irq-HasMasks
      (λ _. printf_d 16 (pos 3))
      (cli_irq_reset irq_kernel
        (fresh irq_kernel (apply_list irq_kernel (pos 24 ∷ []) (pos 3) idle_files))).0.kernel
      (pos 24 ∷ [])
cli_irq_reset-bound_example =
    cli_irq_reset-bound irq_kernel irq-HasMasks irq-IsQuiet (pos 24 ∷ []) (pos 3) (λ _. all_cores)
      idle_files (omega arith, tt, tt) (all_cores-Good, tt) tt one_irq-Shows stays_idle

watch_round-Shows_example :
    All
      (λ irq.
        irq-HasMasks.Shows
          (mask_path irq)
          (printf_d 16 (pos 3))
          (watch_round irq_kernel (pos 16) bound).kernel)
      (bound_irqs irq_kernel bound)
unfolding bound_irqs
watch_round-Shows_example =
    watch_round-Shows irq_kernel irq-HasMasks irq-IsQuiet (pos 16) bound (omega arith) tt
      ((all_cores, all_cores-Good.0, refl), ((all_cores, all_cores-Good.0, refl), tt))

-- settings that switch the binding on, and exempt a thread
abbrev irq_conf : Bytes
irq_conf = codes "IRQ_ENABLE=1\nIRQ_CUSTOM=3\nTHREAD_EXEMPT=steam\n"

abbrev conf_files : Files
conf_files path = some irq_conf

-- the settings are on, and the thread control is off
conf-thread_control :
    is_zero (load_config irq_kernel conf_files fresh_config).0.thread_control ≡ true
unfolding load_config config_read parsed_config parse_conf_int search_key number_at atoi strstr
    printf_s cstr
conf-thread_control = refl

cli_irq_watch-irq_init_example :
    cli_irq_watch irq_kernel 5 (pos 16) (fresh irq_kernel conf_files)
    ≡ irq_init irq_kernel (fresh irq_kernel conf_files)
cli_irq_watch-irq_init_example =
    cli_irq_watch-irq_init irq_kernel 5 (pos 16) conf_files conf-thread_control

abbrev interrupts : Bytes
interrupts = codes "24: 0 PCI-MSI amdgpu\n25: 9 PCI-MSI nvme0q0\n"

abbrev interrupt_files : Files
interrupt_files path = some interrupts

interrupts-read :
    irq_kernel.read_file interrupts_path 8191 interrupt_files ≡ some (interrupts ++ b'\n' ∷ [])
interrupts-read = refl

discover_irqs-device_irqs_example :
    (discover_irqs irq_kernel "nvme" interrupt_files
      ≡ take 64 (device_irqs (codes "nvme") (split_lines (cstr (interrupts ++ b'\n' ∷ [])))))
    × (length (discover_irqs irq_kernel "nvme" interrupt_files) ≤ 64)
    × All (λ irq. is_positive irq ≡ true) (discover_irqs irq_kernel "nvme" interrupt_files)
discover_irqs-device_irqs_example =
    discover_irqs-device_irqs irq_kernel "nvme" interrupt_files (interrupts ++ b'\n' ∷ [])
      interrupts-read
