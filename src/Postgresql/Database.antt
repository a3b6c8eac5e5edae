-- ===== src/Postgresql/Database.antt =====
-- templates/entrypoints/internal/postgresql/database.go: the connection target and the credentials.
use zabbix_docker.Base.{
  String, Bool, false, not, ◌&&◌, Option, none, some, List, [], if◌then◌else◌, ◌==◌, nat_eq,
  char_eq, string_eq, list_eq, Result, ok, err, chars, is_some, equal_fold,
}
use zabbix_docker.Base.Dict.{insert, erase}
use zabbix_docker.Base.Partial.{Partial, ◌>>=◌, wrap_err}
use zabbix_docker.Bootstrap.Environment.{
  Environment, get, value_or_default, value_or_default_non_empty,
}
use zabbix_docker.Bootstrap.Retry.{Failure}
use zabbix_docker.Bootstrap.Database.{
  DbTlsConfig, resolve_service_db_tls, resolve_frontend_db_tls, SettingsError, resolve_db_port,
}
use zabbix_docker.Vault.{Credentials, VaultError}
use zabbix_docker.Postgresql.Endpoints.{Endpoint, EndpointsError, parse_endpoints}

-- `env` is the environment that the entrypoint shares with the database; `resolve_tls` is a function of it
-- that never fails.
pub record Db : Type 0 where
  pub env : Environment
  pub tls : DbTlsConfig
  pub host : String
  pub port : String
  pub endpoints : List Endpoint
  pub admin_user : String
  pub admin_pass : String
  pub user : String
  pub password : String
  pub name : String
  pub schema : String
  pub implicit_search_path : Bool
  pub from_vault : Bool
  pub resolve_tls : Environment → DbTlsConfig

pub data ConfigureError : Type 0 where
  settings : SettingsError → ConfigureError
  invalid_host : String → EndpointsError → ConfigureError
  vault : Failure VaultError → ConfigureError

unfoldable pub new_db : Environment → (Environment → DbTlsConfig) → Db
new_db env resolve_tls = record {
  env = env;
  tls = record { connect_mode = ""; ca_file = ""; cert_file = ""; key_file = "" };
  host = "";
  port = "";
  endpoints = [];
  admin_user = "";
  admin_pass = "";
  user = "";
  password = "";
  name = "";
  schema = "";
  implicit_search_path = false;
  from_vault = false;
  resolve_tls = resolve_tls;
}

unfoldable pub new_for_backend : Environment → Db
new_for_backend env = new_db env resolve_service_db_tls

unfoldable pub new_for_frontend : Environment → Db
new_for_frontend env = new_db env resolve_frontend_db_tls

-- `cmp.Or` of two strings.
abbrev or_else : String → String → String
or_else a b = if a == "" then b else a

abbrev with_endpoints : Db → String → String → Environment → List Endpoint → Db
with_endpoints db host port env endpoints =
    let schema = value_or_default env "DB_SERVER_SCHEMA" "public" in
    record db {
      env = insert "DB_SERVER_SCHEMA" schema env;
      host = host;
      port = port;
      endpoints = endpoints;
      schema = schema;
    }

-- The endpoints and the schema; host, port and schema are written back to the environment.
unfoldable pub with_target : Db → Result ConfigureError Db
with_target db =
    let host = value_or_default db.env "DB_SERVER_HOST" "postgres-server" in
    elim (resolve_db_port db.env "5432") [
      | err e ↦ err (settings e)
      | ok (port, env) ↦ elim (parse_endpoints (chars host) (chars port)) [
        | err e ↦ err (invalid_host host e)
        | ok endpoints ↦
            ok (with_endpoints db host port (insert "DB_SERVER_HOST" host env) endpoints)
      ]
    ]

abbrev with_users : Db → Option Credentials → Db
with_users db none = record db {
  admin_user = or_else (get db.env "POSTGRES_USER") "postgres";
  admin_pass = get db.env "POSTGRES_PASSWORD";
  user = or_else (get db.env "POSTGRES_USER") "zabbix";
  password = or_else (get db.env "POSTGRES_PASSWORD") "zabbix";
}
with_users db (some creds) =
    let alone = get db.env "POSTGRES_USER" == "" && get db.env "POSTGRES_PASSWORD" == "" in
    record db {
      admin_user =
          if alone then creds.username else or_else (get db.env "POSTGRES_USER") "postgres";
      admin_pass = if alone then creds.password else get db.env "POSTGRES_PASSWORD";
      user = creds.username;
      password = creds.password;
    }

-- What follows the call of Vault.
unfoldable pub with_credentials : Db → String → Option Credentials → Db
with_credentials db default_db_name creds = record (with_users db creds) {
  name = value_or_default_non_empty db.env "POSTGRES_DB" default_db_name;
  implicit_search_path =
      equal_fold
        (chars (value_or_default_non_empty db.env "POSTGRES_USE_IMPLICIT_SEARCH_PATH" "false"))
        (chars "true");
  from_vault = is_some creds;
}

abbrev returned : {W A : Type 0} → Result ConfigureError A → Partial W ConfigureError A
returned r w = some (r, w)

-- `resolve_db_credentials` is that of Vault, with the world that it runs in.
unfoldable pub configure :
    {W : Type 0}
    → (Environment → Partial W (Failure VaultError) (Option Credentials))
    → Db
    → String
    → Partial W ConfigureError Db
configure resolve_db_credentials db default_db_name =
    returned (with_target (record db { tls = db.resolve_tls db.env })) >>= λ (db' : Db).
    wrap_err vault (resolve_db_credentials db'.env) >>= λ creds.
    returned (ok (with_credentials db' default_db_name creds))

abbrev with_port : Environment → Environment
with_port env =
    if not (get env "DB_SERVER_PORT" == "")
    then insert "ZBX_DB_PORT" (get env "DB_SERVER_PORT") env
    else env

abbrev with_schema : Db → Environment → Environment
with_schema db env = if not (db.schema == "") then insert "ZBX_DB_SCHEMA" db.schema env else env

abbrev with_user : Db → Environment → Environment
with_user db env =
    if db.from_vault
    then erase "ZBX_DB_PASSWORD" (erase "ZBX_DB_USER" env)
    else insert "ZBX_DB_PASSWORD" db.password (insert "ZBX_DB_USER" db.user env)

unfoldable pub export_env : Db → Db
export_env db =
    let env' =
      insert "ZBX_DB_NAME" db.name
        (with_port (insert "ZBX_DB_HOST" (get db.env "DB_SERVER_HOST") db.env)) in
    record db { env = with_user db (with_schema db env') }
