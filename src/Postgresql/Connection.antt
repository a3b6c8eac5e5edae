-- ===== src/Postgresql/Connection.antt =====
-- templates/entrypoints/internal/postgresql/connection.go: the sessions, and the wait for the server.
pub mod Sessions
use zabbix_docker.Base.{
  ℕ, ◌+◌, ◌*◌, String, ◌<>◌, refl, Bool, true, not, ◌&&◌, Option, none, some, List, [], ◌∷◌, map,
  ltb, if◌then◌else◌, ◌==◌, nat_eq, char_eq, string_eq, list_eq, Result, ok, err, length, is_empty,
  Text, chars, of_text, join,
}
use zabbix_docker.Base.Dict.{Dict, insert}
use zabbix_docker.Base.Exec
use zabbix_docker.Base.Exec.{Exec}
use zabbix_docker.Base.Partial.{Partial, always, ◌>>=◌}
use zabbix_docker.Base.Replace.{replace_all}
use zabbix_docker.Base.Decimal.{pos}
use zabbix_docker.Bootstrap.Os.{OsError}
use zabbix_docker.Bootstrap.Retry.{Failure, plain, stop, wrapped, RetryOptions, retry}
use zabbix_docker.Bootstrap.Database.{DbTlsConfig}
use zabbix_docker.Postgresql.Endpoints.{Endpoint}
use zabbix_docker.Postgresql.Database.{Db}

pub data DbError : Type 0 where
  -- `pgx.ErrNoRows`
  no_rows : DbError
  driver_error : String → DbError

-- What the methods of a session do.
pub record DbSession (W : Type 0) : Type 0 where
  pub query_string : String → List String → Exec W DbError String
  pub exec : String → List String → Exec W DbError (Unit {0})
  pub close : Exec W DbError (Unit {0})

-- `pgx`: `ConnConfig` with the fields that the program reads and sets; `Target` is what else it holds. Times
-- are in seconds. `close_with` gives the deadline of the closing.
pub record ConnConfig (Target : Type 0) : Type 0 where
  pub target : Target
  pub connect_timeout : ℕ
  pub simple_protocol : Bool
  pub runtime_params : Dict String String

-- A URL; `query` holds the parameters before they are encoded.
pub record ConnUrl : Type 0 where
  pub scheme : String
  pub user : String
  pub password : String
  pub host : String
  pub path : String
  pub query : Dict String String

pub record Pgx (W Target Conn : Type 0) : Type 0 where
  pub parse_config : ConnUrl → Result OsError (ConnConfig Target)
  pub connect_config : ℕ → ConnConfig Target → Exec W DbError Conn
  pub query_row : Conn → String → List String → Exec W DbError String
  pub exec_query : Conn → String → List String → Exec W DbError (Unit {0})
  pub close_with : ℕ → Conn → Exec W DbError (Unit {0})

abbrev pub close_timeout : ℕ
close_timeout = 5

-- `QueryString` of what was scanned: no row is the empty text.
unfoldable pub scanned : Result DbError String → Result DbError String
scanned (err no_rows) = ok ""
scanned (err (driver_error e)) = err (driver_error e)
scanned (ok value) = ok value

pub data PostgresError : Type 0 where
  configure_failed : OsError → PostgresError
  connection_failed : DbError → PostgresError
  session_failed : DbError → PostgresError
  close_failed : DbError → PostgresError

abbrev set_if : String → String → Dict String String → Dict String String
set_if key value params = if not (value == "") then insert key value params else params

unfoldable pub ssl_mode : String → Text
ssl_mode connect_mode =
    let mode = replace_all b'_' (chars "-") (chars connect_mode) in
    if mode == chars "required"
    then chars "require"
    else if is_empty mode
    then chars "disable"
    else mode

-- `strings.Join(…, ",")` of the hosts or the ports.
abbrev joined : (Endpoint → Text) → List Endpoint → String
joined part endpoints = of_text (join (chars ",") (map part endpoints))

abbrev target_params : List Endpoint → Dict String String
target_params endpoints =
    let base : Dict String String = insert "connect_timeout" "10" (
      insert "port" (joined (λ endpoint. endpoint.port) endpoints)
        (insert "host" (joined (λ endpoint. endpoint.host) endpoints) [])) in
    if ltb 1 (length endpoints) then insert "target_session_attrs" "read-write" base else base

unfoldable pub conn_params : List Endpoint → DbTlsConfig → Dict String String
conn_params endpoints tls = set_if "sslkey" tls.key_file (
    set_if "sslcert" tls.cert_file (
      set_if "sslrootcert" tls.ca_file
        (insert "sslmode" (of_text (ssl_mode tls.connect_mode)) (target_params endpoints))))

module _ {W Target Conn : Type 0} (pgx : Pgx W Target Conn) where
  unfoldable pub pgx_db_session : Conn → DbSession W
  pgx_db_session conn = record {
    query_string = λ query args w. let (r, w') = pgx.query_row conn query args w in (scanned r, w');
    exec = pgx.exec_query conn;
    close = pgx.close_with close_timeout conn;
  }

  unfoldable pub open_db_session : ℕ → ConnConfig Target → Exec W DbError (DbSession W)
  open_db_session timeout config =
      Exec.◌>>=◌ (pgx.connect_config timeout config) (λ conn. Exec.pure (pgx_db_session conn))

-- `parse_config` is that of `pgx`, `open_session` the field `open` of the database, given the time limit of
-- the attempt; `retry_wait` and `ctx_err` are those of the terminating context.
pub record Client (W Target : Type 0) : Type 0 where
  pub parse_config : ConnUrl → Result OsError (ConnConfig Target)
  pub open_session : ℕ → ConnConfig Target → Exec W DbError (DbSession W)
  pub retry_wait : W → Result (Failure PostgresError) (Unit {0}) × W
  pub ctx_err : W → Option (Failure PostgresError)

module _ {W Target : Type 0} (client : Client W Target) (db : Db) where
  abbrev conn_url : String → String → String → ConnUrl
  conn_url db_name user password = record {
    scheme = "postgres";
    user = user;
    password = password;
    host = "localhost";
    path = "/" <> db_name;
    query = conn_params db.endpoints db.tls;
  }

  abbrev with_search_path : Dict String String → Dict String String
  with_search_path params =
      if not db.implicit_search_path && not (db.schema == "")
      then insert "search_path" db.schema params
      else params

  abbrev adjusted : ConnConfig Target → ConnConfig Target
  adjusted config = record config {
    simple_protocol = true;
    runtime_params = with_search_path config.runtime_params;
  }

  unfoldable pub conn_config : String → String → String → Result PostgresError (ConnConfig Target)
  conn_config db_name user password = elim (client.parse_config (conn_url db_name user password)) [
    | err e ↦ err (configure_failed e)
    | ok config ↦ ok (adjusted config)
  ]

  unfoldable pub connect : String → String → String → Exec W (Failure PostgresError) (DbSession W)
  connect db_name user password = elim (conn_config db_name user password) [
    | err e ↦ Exec.raise (stop (plain e))
    | ok config ↦
        Exec.wrap_err (λ e. plain (connection_failed e))
          (client.open_session (length db.endpoints * config.connect_timeout + 1) config)
  ]

  unfoldable pub connect_target : String → String → Exec W (Failure PostgresError) (DbSession W)
  connect_target user password = connect db.name user password

  -- The attempts share the variable `sess`.
  abbrev Shared : Type 0
  Shared = W × Option (DbSession W)

  -- The loop over the names of databases, with `lastErr` before it.
  unfoldable pub try_names :
      String
      → String
      → List String
      → Result (Failure PostgresError) (Unit {0})
      → Shared
      → Result (Failure PostgresError) (Unit {0}) × Shared
  try_names user password [] last shared = (last, shared)
  try_names user password (name ∷ names) last (w, before) =
      let (opened, w') = connect name user password w in
      elim opened [
        | ok session ↦ (ok tt, (w', some session))
        | err e ↦ try_names user password names (err e) (w', before)
      ]

  unfoldable pub attempt :
      String → String → Shared → Result (Failure PostgresError) (Unit {0}) × Shared
  attempt user password shared = try_names user password (user ∷ db.name ∷ []) (ok tt) shared

  abbrev pub wait_with : Shared → Result (Failure PostgresError) (Unit {0}) × Shared
  wait_with (w, before) = let (r, w') = client.retry_wait w in (r, (w', before))

  -- No limit on the attempts.
  abbrev pub options : RetryOptions Shared PostgresError
  options = record { attempts = pos 0; on_retry = none; wait = wait_with }

  abbrev pub ctx_err_with : Shared → Option (Failure PostgresError)
  ctx_err_with (w, _) = client.ctx_err w

  abbrev pub waited :
      Result (Failure PostgresError) (Unit {0})
      → Option (DbSession W)
      → Result (Failure PostgresError) (Option (DbSession W))
  waited (err e) sess = err e
  waited (ok _) sess = ok sess

  -- The loop, on fuel; a session that was never set is `none`.
  unfoldable pub wait_for_connection :
      ℕ → String → String → Partial W (Failure PostgresError) (Option (DbSession W))
  wait_for_connection fuel user password w =
      elim (retry options (attempt user password) ctx_err_with fuel (w, none)) [
        | none ↦ none
        | some (r, (w', sess)) ↦ some (waited r sess, w')
      ]

  abbrev on_session :
      {A : Type 0}
      → Option (DbSession W)
      → (DbSession W → Partial W (Failure PostgresError) A)
      → Partial W (Failure PostgresError) A
  on_session none f w = none
  on_session (some session) f w = f session w

  unfoldable pub wait : ℕ → Partial W (Failure PostgresError) (Unit {0})
  wait fuel = wait_for_connection fuel db.user db.password >>= λ sess.
      on_session sess
        (λ session. always (Exec.wrap_err (λ e. plain (close_failed e)) session.close))
