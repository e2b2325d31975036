-- ===== src/Socket/Commands.antt =====
-- src/socket.c: the requests that `socket_handle` tells apart by their first bytes.
use x3d_toggle_main.Prelude.{
  Option, none, some, List, [], ◌∷◌, if◌then◌else◌, Bytes, codes, cstr, take, drop, length,
}
use x3d_toggle_main.Libc.Strings.{strcspn}
use x3d_toggle_main.Libc.Strings.Equal.{starts_with}

pub data Command : Type 0 where
  ping mode_query daemon_info get_config toggle set_mode get_topology : Command
  set_affinity_config set_cppc set_boost set_park set_unpark set_tdp set_epp : Command
  set_epp_ccd set_pstate set_governor set_prefcore set_daemon set_config : Command
  set_wrapper daemon_disable config_sync games_list advanced_get advanced_set : Command

-- the literal of the `strncmp`, whose third argument is its length
unfoldable pub prefix : Command → Bytes
prefix ping = codes "PING"
prefix mode_query = codes "MODE"
prefix daemon_info = codes "DAEMON_INFO"
prefix get_config = codes "GET_CONFIG "
prefix toggle = codes "TOGGLE"
prefix set_mode = codes "SET_MODE "
prefix get_topology = codes "GET_TOPOLOGY"
prefix set_affinity_config = codes "SET_AFFINITY_CONFIG "
prefix set_cppc = codes "SET_CPPC "
prefix set_boost = codes "SET_BOOST "
prefix set_park = codes "SET_PARK "
prefix set_unpark = codes "SET_UNPARK "
prefix set_tdp = codes "SET_TDP "
prefix set_epp = codes "SET_EPP "
prefix set_epp_ccd = codes "SET_EPP_CCD "
prefix set_pstate = codes "SET_PSTATE "
prefix set_governor = codes "SET_GOVERNOR "
prefix set_prefcore = codes "SET_PREFCORE "
prefix set_daemon = codes "SET_DAEMON "
prefix set_config = codes "SET_CONFIG "
prefix set_wrapper = codes "SET_WRAPPER "
prefix daemon_disable = codes "DAEMON_DISABLE"
prefix config_sync = codes "CONFIG_SYNC"
prefix games_list = codes "GAMES_LIST"
prefix advanced_get = codes "ADVANCED_GET "
prefix advanced_set = codes "ADVANCED_SET "

-- in the order of the chain
unfoldable pub commands : List Command
commands =
    ping ∷ mode_query ∷ daemon_info ∷ get_config ∷ toggle ∷ set_mode ∷ get_topology
    ∷ set_affinity_config ∷ set_cppc ∷ set_boost ∷ set_park ∷ set_unpark ∷ set_tdp ∷ set_epp
    ∷ set_epp_ccd ∷ set_pstate ∷ set_governor ∷ set_prefcore ∷ set_daemon ∷ set_config ∷ set_wrapper
    ∷ daemon_disable ∷ config_sync ∷ games_list ∷ advanced_get ∷ advanced_set ∷ []

unfoldable pub find_command : Bytes → List Command → Option Command
find_command buf [] = none
find_command buf (c ∷ cs) = if starts_with buf (prefix c) then some c else find_command buf cs

-- `buf[strcspn(buf, "\r\n")] = 0`, and `buf` as a string
unfoldable pub request : Bytes → Bytes
request buf = take (strcspn (some buf) (some (codes "\r\n"))) (cstr buf)

-- `buf + n`
unfoldable pub argument : Command → Bytes → Bytes
argument c buf = drop (length (prefix c)) buf
