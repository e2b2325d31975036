-- ===== src/Tests/Line.antt =====
-- The command line and the commands that start and stop the daemon, at concrete worlds.
use x3d_toggle_main.Prelude.{
  ℕ, zero, suc, ◌≡◌, ◌≢◌, ◌<◌, refl, Bool, true, false, Option, some, [], ◌∷◌, Bytes, codes, pos, ℤ,
  inl, inr, arith, List,
}
use x3d_toggle_main.Libc.Strings.{strcmp, strstr}
use x3d_toggle_main.Libc.Strings.Equal.{str_eq}
use x3d_toggle_main.Errors.{err_success}
use x3d_toggle_main.Kernel.Memory.{Files, memory_kernel}
use x3d_toggle_main.Config.Fields.{daemon_state}
use x3d_toggle_main.Config.Update.{config_update}
use x3d_toggle_main.Games.Edit.{game_add, game_remove}
use x3d_toggle_main.Socket.State.{set_kernel}
use x3d_toggle_main.Socket.Dispatch.{is_plain-All}
use x3d_toggle_main.Systemd.{unit_start, execute_unit_method, unit_result}
use x3d_toggle_main.Client.{World, online, offline, update_setting, world_kernel, set_world_kernel}
use x3d_toggle_main.Client.Requests.{in_state}
use x3d_toggle_main.Client.Rounds.{text_of}
use x3d_toggle_main.Client.Presets.{swap, changed}
use x3d_toggle_main.Client.Service.{cli_daemon_enable}
use x3d_toggle_main.Client.Service.Started.{
  paused, IsOffline, started, cli_daemon_enable-online, cli_daemon_enable-offline,
}
use x3d_toggle_main.Client.Watchlist.{
  edited, cli_config_add, cli_config_remove, cli_config_add-game_add,
}
use x3d_toggle_main.Cli.Table.{
  Handler, daemon_start, daemon_wake, misc_fallback, Command, cmd_table,
}
use x3d_toggle_main.Cli.Dispatch.{call, daemon, is_alias}
use x3d_toggle_main.Cli.Names.{Mem, named, is_elk, daemon-Mem, daemon-alias}
use x3d_toggle_main.Cli.Perform.{run_line, run_line-preset}
use x3d_toggle_main.Tests.Settings
use x3d_toggle_main.Tests.Settings.{text_reals, host, files}

abbrev program : Bytes
program = codes "x3d"

abbrev start_entry : Command
start_entry = record {
  name = "start";
  handler = daemon_start;
  help = "Hard Wake: Start daemon and enable autostart";
}

start-Mem : Mem start_entry cmd_table
unfolding cmd_table
start-Mem = inr (inl refl)

start-other : daemon_start ≢ misc_fallback
start-other e = absurd (cc)

daemon-Mem_example : daemon (program ∷ (codes "start" ∷ [])) ≡ call daemon_start
daemon-Mem_example = daemon-Mem start_entry program [] start-Mem start-other

abbrev rooster_entry : Command
rooster_entry = record { name = "rooster"; handler = daemon_wake; help = "Alias for wake" }

rooster-Mem : Mem rooster_entry cmd_table
unfolding cmd_table
rooster-Mem = inr (inr (inr (inr (inr (inr (inr (inl refl)))))))

rooster-alias : is_alias rooster_entry ≡ true
unfolding is_alias strstr
rooster-alias = refl

rooster-not-elk : is_elk rooster_entry ≡ false
unfolding str_eq strcmp
rooster-not-elk = refl

daemon-alias_example :
    daemon (program ∷ (codes "rooster" ∷ [])) ≡ daemon (program ∷ (named rooster_entry ∷ []))
daemon-alias_example =
    daemon-alias rooster_entry program [] rooster-Mem rooster-alias rooster-not-elk

abbrev W : Type 0
W = World text_reals memory_kernel

-- programs that succeed and leave the world alone
abbrev succeed : List Bytes → W → W × Option Bool
succeed args w = (w, some true)

abbrev still : W → W
still w = w

-- the service is up after a tenth of a second
abbrev wake_up : W → W
wake_up (offline s) = online (set_kernel s Settings.daemon)
wake_up (online d) = online d

abbrev no_other : Handler → List Bytes → W → W × ℤ
no_other h argv w = (w, pos 0)

run_line-preset_example :
    let d1 = changed text_reals memory_kernel host swap Settings.daemon in
    (run_line text_reals memory_kernel host succeed still []
        (λ m. m)
        no_other
        (program ∷ (codes "chameleon" ∷ []))
        (online Settings.daemon)
      ≡ (online d1, err_success))
    × (d1.active_override ≡ 4)
    × (text_of (d1.cfg.field daemon_state) ≡ codes "manual")
    × (d1.wrapper_lock ≡ pos 0)
run_line-preset_example =
    run_line-preset text_reals memory_kernel host succeed still [] (λ m. m) no_other false swap
      program [] Settings.daemon

abbrev saved : Files
saved = config_update memory_kernel host.conf_path (codes "DAEMON_STATE") (codes "default") files

started-offline :
    started text_reals memory_kernel host succeed still (offline files)
    ≡ (offline saved, err_success)
unfolding unit_start execute_unit_method unit_result update_setting world_kernel set_world_kernel
started-offline = refl

started-wakes :
    started text_reals memory_kernel host succeed wake_up (offline files)
    ≡ (offline saved, err_success)
unfolding unit_start execute_unit_method unit_result update_setting world_kernel set_world_kernel
started-wakes = refl

offline-first :
    (i : ℕ)
    → i < 1
    → IsOffline text_reals memory_kernel host succeed wake_up
        (paused text_reals memory_kernel host succeed wake_up i (offline saved))
offline-first zero h = tt
offline-first (suc i) h = absurd (omega arith)

offline-still :
    (i : ℕ)
    → i < 5
    → IsOffline text_reals memory_kernel host succeed still
        (paused text_reals memory_kernel host succeed still i (offline saved))
offline-still i h = stays i
  where
    stays :
        (i : ℕ)
        → IsOffline text_reals memory_kernel host succeed still
            (paused text_reals memory_kernel host succeed still i (offline saved))
    stays zero = tt
    stays (suc i) = stays i

cli_daemon_enable-online_example :
    cli_daemon_enable text_reals memory_kernel host succeed wake_up (offline files) ≡ (
      online (
          in_state text_reals memory_kernel host
            (codes "default")
            (set_kernel saved Settings.daemon)),
      pos 0,
    )
cli_daemon_enable-online_example =
    cli_daemon_enable-online text_reals memory_kernel host succeed wake_up 1 (offline files)
      (offline saved) (set_kernel saved Settings.daemon) started-wakes (omega arith) offline-first
      refl

cli_daemon_enable-offline_example :
    cli_daemon_enable text_reals memory_kernel host succeed still (offline files)
    ≡ (offline saved, pos 0)
cli_daemon_enable-offline_example =
    cli_daemon_enable-offline text_reals memory_kernel host succeed still (offline files)
      (offline saved) started-offline offline-still

abbrev game_args : Bytes → List Bytes
game_args name = program ∷ (name ∷ (codes "factorio" ∷ []))

cli_config_add-game_add_example :
    (cli_config_add text_reals memory_kernel host
        (codes "/g")
        true
        (game_args (codes "add"))
        (online Settings.daemon)
      ≡ edited text_reals memory_kernel host
          (codes "/g")
          true
          (game_add memory_kernel (codes "/g") true (codes "factorio") files)
          (online Settings.daemon))
    × (cli_config_remove text_reals memory_kernel host
          (codes "/g")
          true
          (game_args (codes "add"))
          (online Settings.daemon)
        ≡ edited text_reals memory_kernel host
            (codes "/g")
            true
            (game_remove memory_kernel (codes "/g") (codes "factorio") files)
            (online Settings.daemon))
unfolding world_kernel
cli_config_add-game_add_example =
    cli_config_add-game_add text_reals memory_kernel host (codes "/g") true program (codes "add")
      (codes "factorio") [] (online Settings.daemon) (is_plain-All (codes "factorio") refl)
      (omega arith)
