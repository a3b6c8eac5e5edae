-- ===== src/Config/Agent.antt =====
-- templates/entrypoints/internal/config/agent.go: the servers of an agent.
pub mod Servers
use zabbix_docker.Base.{
  String, ◌<>◌, refl, Bool, not, ◌&&◌, ◌||◌, [], ◌∷◌, if◌then◌else◌, ◌==◌, nat_eq, char_eq,
  string_eq, list_eq, chars, equal_fold,
}
use zabbix_docker.Base.Dict.{lookup, insert, erase}
use zabbix_docker.Bootstrap.Environment.{Environment, get, value_or_default, clear_private_env}

unfoldable pub prepend_server : String → String → String
prepend_server server servers = if servers == "" then server else server <> "," <> servers

-- `ZBX_SERVER_HOST` with the port that is not the default one.
unfoldable pub active_server : Environment → String → String
active_server env server_host =
    let server_port = get env "ZBX_SERVER_PORT" in
    if not (server_port == "") && not (server_port == "10051")
    then server_host <> ":" <> server_port
    else server_host

abbrev pub with_server : String → String → String → String
with_server server_host server servers =
    if not (server_host == "") then prepend_server server servers else servers

-- An empty switch is an allowing one.
unfoldable pub is_allowed : String → Bool
is_allowed value = value == "" || equal_fold (chars value) (chars "true")

unfoldable pub set_servers : String → String → String → Environment → Environment
set_servers allow name servers env =
    if is_allowed (get env allow) && not (servers == "")
    then insert name servers env
    else erase name env

unfoldable pub configure_servers : Environment → Environment
configure_servers env =
    let server_host = value_or_default env "ZBX_SERVER_HOST" "zabbix-server" in
    let passive_servers = with_server server_host server_host (get env "ZBX_PASSIVESERVERS") in
    let active_servers =
      with_server server_host (active_server env server_host) (get env "ZBX_ACTIVESERVERS") in
    let env_1 = set_servers "ZBX_PASSIVE_ALLOW" "ZBX_PASSIVESERVERS" passive_servers env in
    let env_2 = set_servers "ZBX_ACTIVE_ALLOW" "ZBX_ACTIVESERVERS" active_servers env_1 in
    erase "ZBX_SERVER_PORT" (erase "ZBX_SERVER_HOST" env_2)

unfoldable pub clear_private_env_agent : Environment → Environment
clear_private_env_agent env = clear_private_env env ("ZABBIX_" ∷ [])
