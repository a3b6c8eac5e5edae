-- ===== src/Postgresql/Endpoints.antt =====
-- templates/entrypoints/internal/postgresql/endpoints.go: the database hosts to try.
pub mod Parsed
use zabbix_docker.Base.{
  ℕ, ◌+◌, refl, not, Option, none, some, List, [], ◌∷◌, if◌then◌else◌, ◌==◌, nat_eq, char_eq,
  string_eq, list_eq, Result, ok, err, ◌>>=◌, ◌>>◌, map_err, is_empty, Text, chars, is_code,
  trim_space, cut_prefix, is_some, split_on, cut, count_code,
}
use zabbix_docker.Base.Decimal.{parse_uint16}

abbrev socket_dir : Text
socket_dir = chars "/var/run/postgresql"

pub record Endpoint : Type 0 where
  pub host : Text
  pub port : Text

pub data EndpointError : Type 0 where
  missing_bracket : EndpointError
  host_is_empty : EndpointError
  unexpected_data : EndpointError
  port_is_empty : EndpointError
  invalid_port : Text → EndpointError

-- The position of the endpoint in the list, from 1 on, and what is wrong with it.
pub data EndpointsError : Type 0 where
  empty_endpoint : ℕ → EndpointsError
  bad_endpoint : ℕ → Text → EndpointError → EndpointsError

unfoldable pub validate_port : Text → Result EndpointError (Unit {0})
validate_port port =
    if is_empty port
    then err port_is_empty
    else if is_some (parse_uint16 port)
    then ok tt
    else err (invalid_port port)

abbrev checked_port : Text → Text → Result EndpointError Endpoint
checked_port host port = validate_port port >> ok (record { host = host; port = port })

-- What follows the `]`.
abbrev after_bracket : Text → Text → Text → Result EndpointError Endpoint
after_bracket default_port host [] = ok (record { host = host; port = default_port })
after_bracket default_port host (c ∷ suffix) =
    if not (is_code b':' c) then err unexpected_data else checked_port host (trim_space suffix)

abbrev bracketed : Text → Option (Text × Text) → Result EndpointError Endpoint
bracketed default_port none = err missing_bracket
bracketed default_port (some (inside, rest)) =
    if is_empty (trim_space inside)
    then err host_is_empty
    else after_bracket default_port (trim_space inside) (trim_space rest)

abbrev host_and_port : Option (Text × Text) → Result EndpointError Endpoint
host_and_port none = err host_is_empty
host_and_port (some (host, port)) =
    if is_empty (trim_space host)
    then err host_is_empty
    else checked_port (trim_space host) (trim_space port)

unfoldable pub parse_endpoint : Text → Text → Result EndpointError Endpoint
parse_endpoint value default_port = elim (cut_prefix value (chars "[")) [
  | some s ↦ bracketed default_port (cut b']' s)
  | none ↦
      if not (count_code b':' value == 1)
      then ok (record { host = value; port = default_port })
      else host_and_port (cut b':' value)
]

unfoldable pub parse_parts : Text → ℕ → List Text → Result EndpointsError (List Endpoint)
parse_parts default_port i [] = ok []
parse_parts default_port i (raw ∷ parts) =
    if is_empty (trim_space raw)
    then err (empty_endpoint (i + 1))
    else map_err (bad_endpoint (i + 1) (trim_space raw))
        (parse_endpoint (trim_space raw) default_port)
      >>= λ endpoint.
          parse_parts default_port (i + 1) parts >>= λ endpoints. ok (endpoint ∷ endpoints)

unfoldable pub parse_endpoints : Text → Text → Result EndpointsError (List Endpoint)
parse_endpoints hosts default_port =
    if is_empty hosts
    then ok (record { host = socket_dir; port = default_port } ∷ [])
    else parse_parts default_port 0 (split_on b',' hosts)
