-- ===== src/Bootstrap/Database.antt =====
-- templates/entrypoints/internal/bootstrap/database.go, and ResolveFile and ResolveFileEnv of files.go: the
-- settings of the database connection, and the file names in the environment.
pub mod Settings
use zabbix_docker.Base.{
  String, refl, not, ◌||◌, List, [], ◌∷◌, if◌then◌else◌, ◌==◌, nat_eq, char_eq, string_eq, list_eq,
  Result, ok, err, map_err, is_empty, Text, chars, of_text, is_some, has_prefix,
}
use zabbix_docker.Base.Decimal.{parse_uint16}
use zabbix_docker.Base.Exec.{Exec, pure, lift, ◌>>=◌, ◌>>◌, wrap_err}
use zabbix_docker.Base.Dict.{insert}
use zabbix_docker.Base.Paths.{join_paths, is_abs, clean}
use zabbix_docker.Bootstrap.Os.{OsError, FileInfo}
use zabbix_docker.Bootstrap.Environment.{
  Environment, get, value_or_default_non_empty, DirError, required_home_dir,
}
use zabbix_docker.Bootstrap.SecretRegistry.{env_enabled}

pub record DbTlsConfig : Type 0 where
  pub connect_mode : String
  pub ca_file : String
  pub cert_file : String
  pub key_file : String

unfoldable pub db_tls_config : Environment → String → DbTlsConfig
db_tls_config env mode = record {
  connect_mode = mode;
  ca_file = get env "ZBX_DBTLSCAFILE";
  cert_file = get env "ZBX_DBTLSCERTFILE";
  key_file = get env "ZBX_DBTLSKEYFILE";
}

-- The error that the function returns is always nil.
unfoldable pub resolve_service_db_tls : Environment → DbTlsConfig
resolve_service_db_tls env = db_tls_config env (get env "ZBX_DBTLSCONNECT")

unfoldable pub frontend_mode : Environment → String
frontend_mode env =
    if not (get env "ZBX_DBTLSCAFILE" == "")
    then (if env_enabled (get env "ZBX_DB_VERIFY_HOST") then "verify_full" else "verify_ca")
    else "required"

unfoldable pub resolve_frontend_db_tls : Environment → DbTlsConfig
resolve_frontend_db_tls env =
    if not (env_enabled (get env "ZBX_DB_ENCRYPTION"))
    then record { connect_mode = ""; ca_file = ""; cert_file = ""; key_file = "" }
    else db_tls_config env (frontend_mode env)

pub data SettingsError : Type 0 where
  invalid_db_server_port : String → SettingsError
  path_is_empty : SettingsError
  escapes_default_dir : String → SettingsError
  in_variable : String → SettingsError → SettingsError

-- The port, and the environment that it is written back to.
unfoldable pub resolve_db_port : Environment → String → Result SettingsError (String × Environment)
resolve_db_port env default_port =
    let value = value_or_default_non_empty env "DB_SERVER_PORT" default_port in
    if is_some (parse_uint16 (chars value))
    then ok (value, insert "DB_SERVER_PORT" value env)
    else err (invalid_db_server_port value)

unfoldable pub resolve_file : Text → Text → Result SettingsError Text
resolve_file value default_dir =
    if is_empty value
    then err path_is_empty
    else if is_abs value
    then ok (clean value)
    else let path = clean value in
      if path == chars "." || path == chars ".." || has_prefix path (chars "../")
      then err (escapes_default_dir (of_text value))
      else ok (join_paths (default_dir ∷ path ∷ []))

unfoldable pub resolve_file_env : String → Text → Environment → Result SettingsError Environment
resolve_file_env name default_dir env =
    if get env name == "" then ok env else elim (resolve_file (chars (get env name)) default_dir) [
      | err e ↦ err (in_variable name e)
      | ok path ↦ ok (insert name (of_text path) env)
    ]

pub data ScriptError (E : Type 0) : Type 0 where
  home_dir : String × DirError → ScriptError E
  find_failed : OsError → ScriptError E
  script_failed : E → ScriptError E

-- `os.Stat`, `filepath.Glob` and the execution of a script are the parameters.
module _ {W E : Type 0} (stat : String → Result OsError FileInfo)
    (glob : String → W → Result OsError (List String) × W)
    (execute : String → Exec W E (Unit {0})) where
  unfoldable pub run_scripts : List String → Exec W (ScriptError E) (Unit {0})
  run_scripts [] = pure tt
  run_scripts (script ∷ scripts) = wrap_err script_failed (execute script) >> run_scripts scripts

  unfoldable pub run_additional_sql_scripts : Environment → Exec W (ScriptError E) (Unit {0})
  run_additional_sql_scripts env = lift (map_err home_dir (required_home_dir stat env)) >>= λ home.
      wrap_err find_failed
        (glob (of_text (join_paths (chars home ∷ chars "dbscripts" ∷ chars "*.sql" ∷ []))))
      >>= λ scripts. run_scripts scripts
