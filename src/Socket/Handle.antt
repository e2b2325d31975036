-- ===== src/Socket/Handle.antt =====
-- src/socket.c: `socket_handle`. A request is what `recv` puts into the buffer of 512 bytes.
use x3d_toggle_main.Prelude.{false, Option, none, some, [], Bytes, codes}
use x3d_toggle_main.Kernel.{Kernel}
use x3d_toggle_main.Config.Load.{Reals}
use x3d_toggle_main.Socket.State.{Host, Daemon, Outcome, replied, answer}
use x3d_toggle_main.Socket.Commands.{
  Command, ping, mode_query, daemon_info, get_config, toggle, set_mode, get_topology,
  set_affinity_config, set_cppc, set_boost, set_park, set_unpark, set_tdp, set_epp, set_epp_ccd,
  set_pstate, set_governor, set_prefcore, set_daemon, set_config, set_wrapper, daemon_disable,
  config_sync, games_list, advanced_get, advanced_set, commands, find_command, request, argument,
}
use x3d_toggle_main.Socket.Modes.{
  handle_mode, handle_info, handle_toggle, handle_set_mode, handle_set_wrapper,
}
use x3d_toggle_main.Socket.Tuning.{
  handle_get_topology, handle_set_affinity, handle_set_cppc, handle_set_boost, handle_set_park,
  handle_set_unpark, handle_set_tdp, handle_set_epp, handle_set_epp_ccd, handle_set_pstate,
  handle_set_governor, handle_set_prefcore,
}
use x3d_toggle_main.Socket.Settings.{
  handle_get_config, handle_set_config, handle_set_daemon, handle_config_sync,
}
use x3d_toggle_main.Socket.Advanced.{handle_advanced_get, handle_advanced_set}

module _ (reals : Reals) (k : Kernel) (host : Host reals k) where
  abbrev D : Type 0
  D = Daemon reals k

  abbrev Out : Type 0
  Out = Outcome reals k

  -- the branch of a command, with what follows its name
  unfoldable pub serve : Command → Bytes → D → Out
  serve ping arg d = answer (codes "OK") d
  serve mode_query arg d = handle_mode reals k host d
  serve daemon_info arg d = handle_info reals k host d
  serve get_config arg d = handle_get_config reals k host arg d
  serve toggle arg d = handle_toggle reals k host d
  serve set_mode arg d = handle_set_mode reals k host arg d
  serve get_topology arg d = handle_get_topology reals k host d
  serve set_affinity_config arg d = handle_set_affinity reals k host arg d
  serve set_cppc arg d = handle_set_cppc reals k host arg d
  serve set_boost arg d = handle_set_boost reals k host arg d
  serve set_park arg d = handle_set_park reals k host arg d
  serve set_unpark arg d = handle_set_unpark reals k host arg d
  serve set_tdp arg d = handle_set_tdp reals k host arg d
  serve set_epp arg d = handle_set_epp reals k host arg d
  serve set_epp_ccd arg d = handle_set_epp_ccd reals k host arg d
  serve set_pstate arg d = handle_set_pstate reals k host arg d
  serve set_governor arg d = handle_set_governor reals k host arg d
  serve set_prefcore arg d = handle_set_prefcore reals k host arg d
  serve set_daemon arg d = handle_set_daemon reals k host arg d
  serve set_config arg d = handle_set_config reals k host arg d
  serve set_wrapper arg d = handle_set_wrapper reals k host arg d
  serve daemon_disable arg d = answer (codes "OK") (record d { active_keep = false })
  serve config_sync arg d = handle_config_sync reals k host d
  serve games_list arg d = answer (codes "GAMES_SYNCED") d
  serve advanced_get arg d = handle_advanced_get reals k host arg d
  serve advanced_set arg d = handle_advanced_set reals k host arg d

  unfoldable pub serve_found : Option Command → Bytes → D → Out
  serve_found none buf d = answer (codes "ERR") d
  serve_found (some c) buf d = serve c (argument c buf) d

  -- `none` where `recv` gives nothing
  unfoldable pub socket_handle : Option Bytes → D → Out
  unfolding serve_found
  socket_handle none d = replied [] d
  socket_handle (some received) d =
      let buf = request received in serve_found (find_command buf commands) buf d
