-- ===== src/Diagnosis.antt =====
-- src/daemon/diag.c: the health of the eBPF object, the failsafe of the diagnosis, and the commands
-- that run a script. `usr_libs` is the macro USR_LIBS. What is printed is left out.
use x3d_toggle_main.Prelude.{
  Bool, false, Option, none, some, List, [], ◌∷◌, ◌++◌, if◌then◌else◌, get_elem?, ℤ, String, Bytes,
  codes,
}
use x3d_toggle_main.Libc.Strings.Equal.{str_eq}
use x3d_toggle_main.Libc.Bounded.{printf_s}
use x3d_toggle_main.Errors.{err_syntax}
use x3d_toggle_main.Kernel.{Kernel, exists, readable}
use x3d_toggle_main.Hardware.{Topology}
use x3d_toggle_main.Hardware.Cppc.{cppc_restore, exit_result}
use x3d_toggle_main.Hardware.Modes.{Machine, cli_set_dual}

module _ (k : Kernel) (usr_libs : Bytes) where
  unfoldable pub diag_readable : Bytes → k.State → String
  diag_readable bpf_path s =
      if k.access readable bpf_path s then "HEALTHY" else "INACCESSIBLE (PERMISSION DENIED)"

  unfoldable pub diag_ebpf : k.State → String
  diag_ebpf s =
      let installed = printf_s 128 (usr_libs ++ codes "/bpf.o") in
      let state_path = codes "/var/lib/x3d-toggle/bpf.o" in
      if k.access exists installed s
      then diag_readable installed s
      else if k.access exists state_path s
      then diag_readable state_path s
      else if k.access exists (codes "build/bpf.o") s
      then "HEALTHY (DEV BUILD)"
      else "MISSING (.O NOT FOUND)"

module _ (k : Kernel) (cores : Topology) where
  unfoldable pub diag_restore : Machine k → Machine k
  diag_restore m = (cli_set_dual k (record m { kernel = (cppc_restore k cores m.kernel).0 })).0

  unfoldable pub diag_failsafe : Machine k → Machine k
  diag_failsafe m = diag_restore (record m { kernel = (cppc_restore k cores m.kernel).0 })

module _ {S : Type 0} (spawn : List Bytes → S → S × Option Bool) (usr_libs : Bytes) where
  -- fork, execve of the shell with a script below USR_LIBS, waitpid
  unfoldable pub run_script : String → List Bytes → S → S × ℤ
  run_script name args s =
      let path = printf_s 128 (usr_libs ++ codes name) in
      let ran = spawn (codes "/usr/bin/sh" ∷ (path ∷ args)) s in (ran.0, exit_result ran.1)

  unfoldable pub cli_diag_linter : S → S × ℤ
  cli_diag_linter s = run_script "/scripts/tools/linter.sh" [] s

  unfoldable pub cli_diag_debug : S → S × ℤ
  cli_diag_debug s = run_script "/scripts/tools/debug.sh" [] s

  unfoldable pub cli_diag_archive : S → S × ℤ
  cli_diag_archive s = run_script "/scripts/tools/archive.sh" [] s

  unfoldable pub journal_flag : Bytes → Bytes
  journal_flag sub =
      if str_eq sub (codes "journal-log")
      then codes "--log"
      else if str_eq sub (codes "journal-audit")
      then codes "--audit"
      else if str_eq sub (codes "journal-coredump")
      then codes "--coredump"
      else codes "--all"

  unfoldable pub is_rotate : Option Bytes → Bool
  is_rotate none = false
  is_rotate (some arg) = str_eq arg (codes "-rotate")

  unfoldable pub cli_diag_journal : List Bytes → S → S × ℤ
  cli_diag_journal argv s = elim (get_elem? argv 1) [
    | none ↦ (s, err_syntax)
    | some sub ↦
        if is_rotate (get_elem? argv 2)
        then run_script "/scripts/tools/rotate.sh" (journal_flag sub ∷ []) s
        else (s, err_syntax)
  ]

  unfoldable pub cli_diag_dump : List Bytes → S → S × ℤ
  cli_diag_dump argv s =
      let editor : Bytes = elim (get_elem? argv 2) [ none ↦ codes "none" | some arg ↦ arg ] in
      run_script "/scripts/tools/coredump.sh" (editor ∷ []) s

  unfoldable pub rotate_flag : Bytes → Bytes
  rotate_flag sub =
      if str_eq sub (codes "rotate-log")
      then codes "--log"
      else if str_eq sub (codes "rotate-audit")
      then codes "--audit"
      else codes "--all"

  -- `argv[1]` is the name of the command
  unfoldable pub cli_diag_rotate : Bytes → S → S × ℤ
  cli_diag_rotate sub s = run_script "/scripts/tools/rotate.sh" (rotate_flag sub ∷ []) s
