-- ===== src/Tests/ConfigTests.antt =====
-- The configuration files, the agent's servers and the endpoints, at concrete inputs.
use zabbix_docker.Base.{
  String, none, ◌⊎◌, ◌+◌, ◌≡◌, refl, ◌⊎◌, true, List, [], ◌∷◌, nat_eq, char_eq, string_eq, list_eq,
  length, is_empty, select, All, Text, chars, is_space, trim_left, trim_right, trim, trim_space,
  cut_prefix, split_on, cut, count_code,
}
use zabbix_docker.Base.Dict.{lookup}
use zabbix_docker.Base.Decimal.{parse_uint16, digits_value}
use zabbix_docker.Bootstrap.Environment.{Environment, get}
use zabbix_docker.Config.Parameters.{rewrite_lines, lines_of, content_of}
use zabbix_docker.Config.Parameters.Scanning.{is_other}
use zabbix_docker.Config.Parameters.Rewriting.{IsSeparated, rewrite_lines-others}
use zabbix_docker.Config.Parameters.Merging.{rewrite_lines-idempotent}
use zabbix_docker.Config.Parameters.LineBreaks.{lines_of-content_of}
use zabbix_docker.Config.Agent.{configure_servers}
use zabbix_docker.Config.Agent.Servers.{
  IsHost, IsEntry, IsServers, IsPublished, configure_servers-lookup,
}
use zabbix_docker.Postgresql.Endpoints.{
  Endpoint, parse_endpoints, parse_parts, parse_endpoint, validate_port,
}
use zabbix_docker.Postgresql.Endpoints.Parsed.{IsEndpoint, parse_endpoints-IsEndpoint}

abbrev agent_lines : List Text
agent_lines = chars "# Server=" ∷ chars "Server=a" ∷ chars "LogType=file" ∷ []

abbrev new_servers : List Text
new_servers = chars "a" ∷ chars "b" ∷ []

rewrite_lines-others_example :
    (select
        (is_other (chars "Server"))
        (rewrite_lines (chars "Server") new_servers true agent_lines)
      ≡ select (is_other (chars "Server")) agent_lines)
    ⊎ IsSeparated
        (chars "Server")
        (select (is_other (chars "Server")) agent_lines)
        (rewrite_lines (chars "Server") new_servers true agent_lines)
rewrite_lines-others_example = rewrite_lines-others (chars "Server") new_servers true agent_lines

rewrite_lines-idempotent_example :
    rewrite_lines
      (chars "Server")
      new_servers
      true
      (rewrite_lines (chars "Server") new_servers true agent_lines)
    ≡ rewrite_lines (chars "Server") new_servers true agent_lines
rewrite_lines-idempotent_example = rewrite_lines-idempotent (chars "Server") new_servers agent_lines

lines_of-content_of_example : lines_of (content_of agent_lines) ≡ agent_lines
unfolding chars count_code
lines_of-content_of_example =
    lines_of-content_of (chars "# Server=") (chars "Server=a" ∷ chars "LogType=file" ∷ [])
      ((refl, refl), ((refl, refl), ((refl, refl), tt)))

abbrev agent_env : Environment
agent_env =
    ("ZBX_SERVER_HOST", "main") ∷ ("ZBX_SERVER_PORT", "10055") ∷ ("ZBX_ACTIVESERVERS", "other") ∷ []

abbrev home : String
home = "HOME"

configure_servers-lookup_example :
    (host : String) × (entry : String) × (passive : String) × (active : String) × IsHost agent_env
      host
    × IsEntry host (get agent_env "ZBX_SERVER_PORT") entry
    × IsServers host host (get agent_env "ZBX_PASSIVESERVERS") passive
    × IsServers host entry (get agent_env "ZBX_ACTIVESERVERS") active
    × IsPublished
        (get agent_env "ZBX_PASSIVE_ALLOW")
        passive
        (lookup "ZBX_PASSIVESERVERS" (configure_servers agent_env))
    × IsPublished
        (get agent_env "ZBX_ACTIVE_ALLOW")
        active
        (lookup "ZBX_ACTIVESERVERS" (configure_servers agent_env))
    × (lookup "ZBX_SERVER_HOST" (configure_servers agent_env) ≡ none)
    × (lookup "ZBX_SERVER_PORT" (configure_servers agent_env) ≡ none)
    × ((home ≡ "ZBX_SERVER_PORT")
        ⊎ (home ≡ "ZBX_SERVER_HOST")
        ⊎ (home ≡ "ZBX_ACTIVESERVERS")
        ⊎ (home ≡ "ZBX_PASSIVESERVERS")
        ⊎ (lookup home (configure_servers agent_env) ≡ lookup home agent_env))
configure_servers-lookup_example = configure_servers-lookup agent_env home

abbrev two_hosts : Text
two_hosts = chars "db1:5433, [::1]"

abbrev two_endpoints : List Endpoint
two_endpoints =
    record { host = chars "db1"; port = chars "5433" }
    ∷ record { host = chars "::1"; port = chars "5432" }
    ∷ []

parse_endpoints-IsEndpoint_example :
    (length two_endpoints ≡ count_code b',' two_hosts + 1)
    × All (IsEndpoint (chars "5432")) two_endpoints
unfolding is_empty parse_endpoints parse_parts parse_endpoint validate_port chars split_on
    trim_space trim trim_left trim_right is_space cut_prefix count_code cut parse_uint16
    digits_value
parse_endpoints-IsEndpoint_example =
    parse_endpoints-IsEndpoint two_hosts (chars "5432") two_endpoints refl refl
