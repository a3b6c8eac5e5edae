-- ===== src/Mysql/Database.antt =====
-- templates/entrypoints/internal/mysql/database.go: the connection target and the credentials.
pub mod Configured
pub mod Exported
use zabbix_docker.Base.{
  String, refl, Bool, false, not, ◌&&◌, ◌||◌, Option, none, some, if◌then◌else◌, ◌==◌, nat_eq,
  char_eq, string_eq, list_eq, Result, ok, err, chars, of_text, trim, is_some,
}
use zabbix_docker.Base.Dict.{lookup, insert, erase}
use zabbix_docker.Base.Partial.{Partial, pure, raise, ◌>>=◌, wrap_err}
use zabbix_docker.Base.Replace.{join_host_port}
use zabbix_docker.Bootstrap.Environment.{Environment, get, value_or_default_non_empty}
use zabbix_docker.Bootstrap.Retry.{Failure}
use zabbix_docker.Bootstrap.Database.{
  DbTlsConfig, resolve_service_db_tls, resolve_frontend_db_tls, SettingsError, resolve_db_port,
}
use zabbix_docker.Vault.{Credentials, VaultError}
use zabbix_docker.Mysql.Tls.{is_bracket}

-- `env` is the environment that the entrypoint shares with the database; `resolve_tls` is a function of it
-- that never fails.
pub record Db : Type 0 where
  pub env : Environment
  pub tls : DbTlsConfig
  pub network : String
  pub address : String
  pub charset : String
  pub collation : String
  pub admin_user : String
  pub admin_pass : String
  pub user : String
  pub password : String
  pub name : String
  pub create_user : Bool
  pub from_vault : Bool
  pub resolve_tls : Environment → DbTlsConfig

pub data ConfigureError : Type 0 where
  settings : SettingsError → ConfigureError
  vault : Failure VaultError → ConfigureError
  root_password_not_defined : ConfigureError

unfoldable pub new_db : Environment → (Environment → DbTlsConfig) → Db
new_db env resolve_tls = record {
  env = env;
  tls = record { connect_mode = ""; ca_file = ""; cert_file = ""; key_file = "" };
  network = "";
  address = "";
  charset = value_or_default_non_empty env "DB_CHARACTER_SET" "utf8mb4";
  collation = value_or_default_non_empty env "DB_CHARACTER_COLLATE" "utf8mb4_bin";
  admin_user = "";
  admin_pass = "";
  user = "";
  password = "";
  name = "";
  create_user = false;
  from_vault = false;
  resolve_tls = resolve_tls;
}

unfoldable pub new_for_backend : Environment → Db
new_for_backend env = new_db env resolve_service_db_tls

unfoldable pub new_for_frontend : Environment → Db
new_for_frontend env = new_db env resolve_frontend_db_tls

-- `cmp.Or` of two strings.
abbrev pub or_else : String → String → String
or_else a b = if a == "" then b else a

abbrev tcp_target : Db → String × Environment → Db
tcp_target db (port, env) =
    let host = value_or_default_non_empty db.env "DB_SERVER_HOST" "mysql-server" in
    record db {
      env = insert "DB_SERVER_HOST" host env;
      network = "tcp";
      address = of_text (join_host_port (trim is_bracket (chars host)) (chars port));
    }

-- The network and the address; the host and the port are written back to the environment.
unfoldable pub with_target : Db → Result ConfigureError Db
with_target db =
    if not (get db.env "DB_SERVER_SOCKET" == "")
    then ok (record db { network = "unix"; address = get db.env "DB_SERVER_SOCKET" })
    else elim (resolve_db_port db.env "3306") [
      | err e ↦ err (settings e)
      | ok target ↦ ok (tcp_target db target)
    ]

abbrev pub user_of : Environment → Option Credentials → String
user_of env none = get env "MYSQL_USER"
user_of env (some creds) = creds.username

abbrev pub password_of : Environment → Option Credentials → String
password_of env none = get env "MYSQL_PASSWORD"
password_of env (some creds) = creds.password

abbrev pub use_root : Environment → Bool
use_root env =
    get env "MYSQL_ALLOW_EMPTY_PASSWORD" == "true" || not (get env "MYSQL_ROOT_PASSWORD" == "")

abbrev pub admin_of : Environment → String × String
admin_of env =
    if use_root env
    then (or_else (get env "MYSQL_ROOT_USER") "root", get env "MYSQL_ROOT_PASSWORD")
    else (get env "DB_SERVER_ROOT_USER", get env "DB_SERVER_ROOT_PASS")

abbrev pub has_admin_credentials : Environment → Bool
has_admin_credentials env =
    use_root env || (not ((admin_of env).0 == "") && is_some (lookup "DB_SERVER_ROOT_PASS" env))

abbrev pub admin_or : String × String → String → String → String × String
admin_or (admin_user, admin_pass) user password =
    if admin_user == "" then (user, password) else (admin_user, admin_pass)

-- What follows the call of Vault.
unfoldable pub with_credentials : Db → String → Option Credentials → Result ConfigureError Db
with_credentials db default_db_name creds =
    let user = user_of db.env creds in
    let password = password_of db.env creds in
    let allow_empty = get db.env "MYSQL_ALLOW_EMPTY_PASSWORD" == "true" in
    let admin = admin_or (admin_of db.env) user password in
    if user == "" && get db.env "MYSQL_ROOT_PASSWORD" == "" && not allow_empty
    then err root_password_not_defined
    else ok (record db {
      admin_user = admin.0;
      admin_pass = admin.1;
      create_user = not (user == "") && has_admin_credentials db.env;
      user = or_else user "zabbix";
      password = or_else password "zabbix";
      name = value_or_default_non_empty db.env "MYSQL_DATABASE" default_db_name;
      from_vault = is_some creds;
    })

abbrev returned : {W A : Type 0} → Result ConfigureError A → Partial W ConfigureError A
returned r w = some (r, w)

-- `resolve_db_credentials` is that of Vault, with the world that it runs in.
unfoldable pub configure :
    {W : Type 0}
    → (Environment → Partial W (Failure VaultError) (Option Credentials))
    → Db
    → String
    → Partial W ConfigureError Db
configure resolve_db_credentials db default_db_name =
    returned (with_target (record db { tls = db.resolve_tls db.env })) >>= λ (db' : Db).
    wrap_err vault (resolve_db_credentials db'.env) >>= λ creds.
    returned (with_credentials db' default_db_name creds)

abbrev copy_setting : String → String → Environment → Environment
copy_setting source target env =
    if not (get env source == "") then insert target (get env source) env else env

abbrev with_user : Db → Environment → Environment
with_user db env =
    if db.from_vault
    then erase "ZBX_DB_PASSWORD" (erase "ZBX_DB_USER" env)
    else insert "ZBX_DB_PASSWORD" db.password (insert "ZBX_DB_USER" db.user env)

unfoldable pub export_env : Db → Db
export_env db =
    let env' = copy_setting "DB_SERVER_PORT" "ZBX_DB_PORT" (
      copy_setting "DB_SERVER_HOST" "ZBX_DB_HOST"
        (copy_setting "DB_SERVER_SOCKET" "ZBX_DB_SOCKET" db.env)) in
    record db { env = with_user db (insert "ZBX_DB_NAME" db.name env') }
