-- ===== src/Cli/Perform.antt =====
-- src/toggle.c with the handlers of src/daemon/modes.c, src/daemon/daemon.c, src/daemon/config.c and
-- src/daemon/cppc.c: what a command line does to a world with or without a daemon. The handlers that
-- do not work on the daemon or the settings are the parameter `other`.
use x3d_toggle_main.Prelude.{
  ◌≡◌, refl, sym, ap, ◌∙◌, Bool, true, false, Option, List, ◌∷◌, ℤ, pos, negsuc, Bytes, codes,
}
use x3d_toggle_main.Libc.Strings.{strcmp}
use x3d_toggle_main.Libc.Strings.Equal.{str_eq}
use x3d_toggle_main.Errors.{err_success}
use x3d_toggle_main.Kernel.{Kernel}
use x3d_toggle_main.Config.Fields.{daemon_state}
use x3d_toggle_main.Config.Load.{Reals}
use x3d_toggle_main.Socket.State.{Host, Daemon}
use x3d_toggle_main.Client.{
  World, online, ccd_change, cli_mode_reset, cli_mode_default, cli_daemon_wake, cli_daemon_sleep,
}
use x3d_toggle_main.Client.Settings
use x3d_toggle_main.Client.Service
use x3d_toggle_main.Client.Rounds.{text_of, daemon_after}
use x3d_toggle_main.Client.Presets.{
  Preset, cache, frequency, dual, swap, preset_name, preset_override, changed, change_lem,
  ccd_change-online,
}
use x3d_toggle_main.Cli.Table.{Handler, cmd_table}
use x3d_toggle_main.Cli.Dispatch.{
  search_table, find_command, is_help, Action, usage, help, call, call_found, daemon,
}

abbrev pub err_usage : ℤ
err_usage = negsuc 20

module _ (reals : Reals) (k : Kernel) (host : Host reals k)
    (spawn : List Bytes → World reals k → World reals k × Option Bool)
    (pause : World reals k → World reals k) (usr_libs : Bytes) (macro : Bytes → Bytes)
    (other : Handler → List Bytes → World reals k → World reals k × ℤ) where
  abbrev W : Type 0
  W = World reals k

  unfoldable pub perform : Handler → List Bytes → W → W × ℤ
  perform Handler.daemon_enable argv w = Service.cli_daemon_enable reals k host spawn pause w
  perform Handler.daemon_start argv w = Service.cli_daemon_start reals k host spawn pause w
  perform Handler.daemon_wake argv w = cli_daemon_wake reals k host w
  perform Handler.daemon_sleep argv w = cli_daemon_sleep reals k host w
  perform Handler.daemon_stop argv w = Service.cli_daemon_stop reals k host spawn pause w
  perform Handler.daemon_disable argv w = Service.cli_daemon_disable reals k host spawn pause w
  perform Handler.mode_cache argv w = ccd_change reals k host (codes "cache") w
  perform Handler.mode_frequency argv w = ccd_change reals k host (codes "frequency") w
  perform Handler.mode_dual argv w = ccd_change reals k host (codes "dual") w
  perform Handler.mode_swap argv w = ccd_change reals k host (codes "swap") w
  perform Handler.mode_auto argv w = Service.cli_mode_auto reals k host spawn pause w
  perform Handler.mode_reset argv w = cli_mode_reset reals k host w
  perform Handler.mode_default argv w = cli_mode_default reals k host macro w
  perform Handler.config_interval argv w = Settings.cli_config_interval reals k host argv w
  perform Handler.config_threshold argv w = Settings.cli_config_threshold reals k host argv w
  perform Handler.config_fallback argv w = Settings.cli_config_fallback reals k host argv w
  perform Handler.config_detection argv w = Settings.cli_config_detection reals k host argv w
  perform Handler.config_polling argv w = Settings.cli_config_polling reals k host w
  perform Handler.config_ebpf argv w = Settings.cli_config_ebpf reals k host w
  perform Handler.config_server argv w = Service.cli_config_server reals k host spawn pause argv w
  perform Handler.config_profile argv w = Settings.cli_config_profile reals k host argv w
  perform Handler.config_sync argv w = Settings.cli_config_sync reals k host w
  perform Handler.config_update argv w =
      Service.cli_config_update reals k host spawn pause usr_libs w
  perform Handler.framework argv w = Service.cli_framework reals k host spawn pause argv w
  perform Handler.cppc_perf argv w = Settings.cli_cppc_perf reals k host w
  perform Handler.cppc_bal argv w = Settings.cli_cppc_bal reals k host w
  perform Handler.cppc_eco argv w = Settings.cli_cppc_eco reals k host w
  perform Handler.cppc_power argv w = Settings.cli_cppc_power reals k host w
  perform Handler.cppc_epp argv w = Settings.cli_cppc_epp reals k host argv w
  perform Handler.cppc_raw argv w = Settings.cli_cppc_raw reals k host argv w
  perform Handler.cppc_mode argv w = Settings.cli_cppc_mode reals k host argv w
  perform Handler.cppc_target argv w = Settings.cli_cppc_target reals k host argv w
  perform Handler.cppc_governor argv w = Settings.cli_cppc_governor reals k host argv w
  perform Handler.cppc_prefcore argv w = Settings.cli_cppc_prefcore reals k host argv w
  perform handler argv w = other handler argv w

  unfoldable pub do_action : Action → List Bytes → W → W × ℤ
  do_action usage argv w = (w, err_usage)
  do_action help argv w = (w, pos 0)
  do_action (call h) argv w = perform h argv w

  unfoldable pub run_line : List Bytes → W → W × ℤ
  run_line argv w = do_action (daemon argv) argv w

  -- the two words of each preset
  abbrev pub word : Bool → Preset → Bytes
  word true cache = codes "cache"
  word true frequency = codes "frequency"
  word true dual = codes "dual"
  word true swap = codes "swap"
  word false cache = codes "rabbit"
  word false frequency = codes "cheetah"
  word false dual = codes "bear"
  word false swap = codes "chameleon"

  line-change :
      (plain : Bool) (p : Preset) (program : Bytes) (rest : List Bytes) (w : W)
      → run_line (program ∷ (word plain p ∷ rest)) w ≡ ccd_change reals k host (preset_name p) w
  unfolding run_line do_action daemon is_help str_eq strcmp call_found find_command search_table
      cmd_table perform
  line-change true cache program rest w = refl
  line-change true frequency program rest w = refl
  line-change true dual program rest w = refl
  line-change true swap program rest w = refl
  line-change false cache program rest w = refl
  line-change false frequency program rest w = refl
  line-change false dual program rest w = refl
  line-change false swap program rest w = refl

  -- With a daemon that listens, a command line with one of the words cache, frequency, dual and
  -- swap, or rabbit, cheetah, bear and chameleon for the same, and with any arguments behind it,
  -- succeeds, and leaves the daemon in the state "manual" with the override of the mode, 1 to 4, and
  -- the lock of the wrapper as before.
  pub run_line-preset :
      (plain : Bool) (p : Preset) (program : Bytes) (rest : List Bytes) (d : Daemon reals k)
      → (run_line (program ∷ (word plain p ∷ rest)) (online d)
          ≡ (online (changed reals k host p d), err_success))
        × ((changed reals k host p d).active_override ≡ preset_override p)
        × (text_of ((changed reals k host p d).cfg.field daemon_state) ≡ codes "manual")
        × ((changed reals k host p d).wrapper_lock ≡ d.wrapper_lock)
  run_line-preset plain p program rest d =
      let set = ccd_change-online reals k host p d in
      let e = change_lem reals k host p d in
      (
        line-change plain p program rest (online d)
            ∙ e
            ∙ ap (λ t. (online t, err_success)) (sym (ap (λ x. daemon_after d x.0) e)),
        set.1,
        set.2,
        set.3,
      )
