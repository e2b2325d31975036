-- ===== src/Journal/Registry.antt =====
-- src/error.c: the tables of messages and the look-up in them. A text that is NULL is `none`; the
-- entry [38], which the initialiser leaves out, is two of them.
use x3d_toggle_main.Prelude.{
  ℕ, suc, not, ltb, ◌==◌, ◌&&◌, Option, none, some, List, [], ◌∷◌, length, get_elem?, if◌then◌else◌,
  ℤ, pos, negsuc, String,
}

pub record Msg : Type 0 where
  pub summary : Option String
  pub details : Option String

abbrev pub text : String → String → Msg
text summary details = record { summary = some summary; details = some details }

abbrev pub hole : Msg
hole = record { summary = none; details = none }

abbrev pub unknown : Msg
unknown = text "Unknown Condition" "Unknown code generated"

unfoldable pub registry_msg : List Msg
registry_msg =
    text "Success" "Operation completed successfully"
    ∷ text "Target Sysfs node or file not found" "Path missing or inaccessible: %s"
    ∷ text "Permission denied" "Access to hardware restricted: %s"
    ∷ text "I/O failure during hardware write" "Sysfs write failed for %s"
    ∷ text "Daemon communication failure" "Failed to contact daemon (Code: %d)"
    ∷ text "Hardware transition rejected" "SMU rejected state change (Code: %d)"
    ∷ text "Invalid command syntax" "Syntax error: %s"
    ∷ text "Polkit elevation failed" "Privilege escalation denied"
    ∷ text "Internal daemon state collision" "Daemon error: %s"
    ∷ text "Unknown command or process" "%s"
    ∷ text "System state anomaly" "Daemon offline. Utilizing Polkit VIP pass..."
    ∷ text "System state anomaly"
        "Hint: Shell session lacks 'x3d-toggle' group. Try full logout or 'sudo'."
    ∷ text "System state anomaly" "Note: Only functional when amd_pstate is in 'passive' mode."
    ∷ text "Invalid command syntax" "Usage: x3d profile [add|save|load|delete] [profile_name]"
    ∷ text "System state anomaly" "Hint: Daemon is offline or socket missing at %s"
    ∷ text "I/O failure during local write" "Error opening local game list: %s"
    ∷ text "I/O failure during local write" "Remove-game for '%s' not yet implemented."
    ∷ text "Daemon communication failure" "Failed to retrieve daemon status."
    ∷ text "Invalid command syntax" "Usage: x3d cppc [auto|high|normal|low]"
    ∷ text "Invalid command syntax" "Usage: x3d [epp-target|epp-raw] [ARGS...]"
    ∷ text "Invalid command syntax" "Usage: x3d governor [performance|powersave|schedutil]"
    ∷ text "Invalid command syntax" "Usage: x3d [boost|park|unpark|tdp|smt|plat] [ARGS...]"
    ∷ text "IPC Socket Failure" "Failed to create AF_UNIX socket: %s"
    ∷ text "IPC Bind Failure" "Failed to bind IPC socket to %s: %s"
    ∷ text "IPC Ownership Failure" "Failed to chown socket to x3d-toggle group: %s"
    ∷ text "IPC Permission Failure" "Failed to enforce 0660 permissions on %s: %s"
    ∷ text "IPC Listen Failure" "Failed to listen on IPC socket: %s"
    ∷ text "BPF Load Failure" "Failed to load eBPF object: %s"
    ∷ text "Linter failure" "Automated audit suite reported errors (Code: %d)"
    ∷ text "Memory allocation failure" "Failed to allocate %zu bytes"
    ∷ text "Critical Error: Configuration File Not Found"
        "/etc/x3d-toggle.d user configuration file is missing. Run the installer or regenerate it."
    ∷ text "Scaffolding Component Failure" "Failed to generate: %s"
    ∷ text "Build Artifact Permission Overlap" "Permission denied on: %s. Run 'sudo make clean'."
    ∷ text "OBLITERATION ABORTED: Self-Destruction Guard Triggered"
        "Safety Check failed: You are currently working inside the directory you are trying to delete. Path: %s"
    ∷ text "Cgroup Resource Isolation Failed"
        "Ephemeral core-set migration rejected (Locked or restricted): %s"
    ∷ text "Affinity Migration Disruption"
        "Universal Protocol failed to migrate process affinity (Code: %d)"
    ∷ text "GUI Execution Failure" "Dashboard error: %s"
    ∷ text "Direct execution restricted" "Please use the 'x3d-toggle' CLI or run via the installer."
    ∷ hole
    ∷ text "Path component too long" "Assembled path exceeds 4096 bytes: %s"
    ∷ text "IRQ Binding Failed" "Failed to write affinity mask for IRQ %d: %s"
    ∷ text "IRQ MSI Verification Failed" "Device %s is not using MSI; legacy APIC pin detected"
    ∷ text "irqbalance Control Failed" "Failed to %s irqbalance service: %s"
    ∷ text "udev Rule Generation Failed" "Could not write 99-x3d-irq.rules: %s"
    ∷ text "IRQ Discovery Failed" "No IRQ vectors found for device class: %s"
    ∷ text "IRQ Teardown Incomplete"
        "Failed to restore affinity for IRQ %d; system may require reboot"
    ∷ text "IRQ Coalescing Error" "Failed to apply ethtool parameters to NIC: %s"
    ∷ text "IRQ Watch Error" "Daemon polling loop encountered an unexpected failure"
    ∷ text "Unsupported kernel feature" "Feature '%s' not supported by the current kernel."
    ∷ []

unfoldable pub registry_status : List Msg
registry_status =
    text "Success" "Operation successful"
    ∷ text "Hardware Defaults" "Native heuristics restored via %s"
    ∷ text "Configuration Synced" "Runtime configuration flushed to disk"
    ∷ text "Process Watchlist Updated" "Added '%s' to %s"
    ∷ text "Profile Action Successful" "%s"
    ∷ text "EPP Heuristic Applied" "EPP set to: %s"
    ∷ text "P-State Mode Shifted" "amd_pstate operational mode set to: %s"
    ∷ text "CPPC Target Applied" "Desired Performance Target register set to: %s"
    ∷ text "Governor Shifted" "CPUFreq scaling governor set to: %s"
    ∷ text "Preferred Cores Toggled" "CPPC highest_perf hints toggled: %s"
    ∷ text "Boost State Toggled" "Precision Boost override: %s"
    ∷ text "Daemon Initialization" "X3D Toggle Daemon started successfully."
    ∷ text "BPF Game Detection" "Process '%s' (PID %d) %s. Active: %d"
    ∷ text "State Transition" "Target: %s | Sysfs: %s | Load: %.1f%%"
    ∷ text "IPC Server Ready" "IPC server bound to %s with strict 0660 permissions."
    ∷ text "Process Watchlist Updated" "Removed '%s' from %s"
    ∷ text "Dialog Already Active"
        "Status monitor is already open. Close the existing window first."
    ∷ text "Developer Sync" "UI Framework and build artifacts successfully re-scaffolded."
    ∷ []

-- `val` is the code without its sign; `none` would be a read behind the table.
unfoldable pub message : ℕ → Option Msg
unfolding registry_msg
message val = if ltb val (length registry_msg) then get_elem? registry_msg val else some unknown

-- The code is above INT_MIN, of which `-val` is not an int.
unfoldable pub journal_get : ℤ → Option Msg
unfolding message registry_status
journal_get (pos val) =
    if not (val == 0) && ltb val (length registry_status)
    then get_elem? registry_status val
    else message val
journal_get (negsuc n) = message (suc n)

unfoldable pub journal_string : ℤ → Option String
journal_string code = elim (journal_get code) [ none ↦ none | some msg ↦ msg.summary ]
