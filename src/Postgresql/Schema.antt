-- ===== src/Postgresql/Schema.antt =====
-- templates/entrypoints/internal/postgresql/schema.go: the database and its schema.
use zabbix_docker.Base.{
  ℕ, String, ◌<>◌, not, Option, none, some, List, [], ◌∷◌, ◌++◌, if◌then◌else◌, ◌==◌, nat_eq,
  char_eq, string_eq, list_eq, Result, chars, of_text, equal_fold,
}
use zabbix_docker.Base.Exec.{Exec, pure, ◌>>=◌, ◌>>◌, wrap_err}
use zabbix_docker.Base.Partial
use zabbix_docker.Base.Partial.{Partial}
use zabbix_docker.Base.Replace.{replace_all}
use zabbix_docker.Bootstrap.Os.{OsError, FileInfo}
use zabbix_docker.Bootstrap.Files.{deferred}
use zabbix_docker.Bootstrap.SqlFile.{SqlFileError, SqlFileOps, read_sql_file}
use zabbix_docker.Bootstrap.Retry.{Failure}
use zabbix_docker.Bootstrap.Environment.{get}
use zabbix_docker.Bootstrap.Database.{ScriptError, run_additional_sql_scripts}
use zabbix_docker.Postgresql.Database.{Db}
use zabbix_docker.Postgresql.Connection.{
  DbError, DbSession, PostgresError, Client, connect_target, wait_for_connection,
}

unfoldable pub quote_identifier : String → String
quote_identifier value =
    of_text (chars "\"" ++ (replace_all b'"' (chars "\"\"") (chars value) ++ chars "\""))

pub data ScriptFailure : Type 0 where
  read_script : SqlFileError → ScriptFailure
  connect_to_database : String → Failure PostgresError → ScriptFailure
  execute_script : String → DbError → ScriptFailure

pub data PrepareError : Type 0 where
  not_connected : Failure PostgresError → PrepareError
  failed : DbError → PrepareError
  create_database : DbError → PrepareError
  schema_script : ScriptFailure → PrepareError
  additional_scripts : ScriptError ScriptFailure → PrepareError

module _ {W Target Reader : Type 0} (client : Client W Target) (files : SqlFileOps W Reader)
    (db : Db) where
  abbrev close_quietly : DbSession W → W → W
  close_quietly session w = (session.close w).1

  abbrev create_statement : String
  create_statement =
      "CREATE DATABASE "
      <> (quote_identifier db.name
          <> (" OWNER "
              <> (quote_identifier db.user <> " LC_CTYPE 'en_US.utf8' LC_COLLATE 'en_US.utf8'")))

  unfoldable pub create_db : DbSession W → Exec W PrepareError (Unit {0})
  create_db session =
      wrap_err failed
        (session.query_string "SELECT 1::text FROM pg_database WHERE datname=$1" (db.name ∷ []))
      >>= λ exists.
          (if not (exists == "")
            then pure tt
            else wrap_err create_database (session.exec create_statement []))

  unfoldable pub create_namespace : DbSession W → Exec W DbError (Unit {0})
  create_namespace session =
      if db.schema == ""
      then pure tt
      else (session.query_string "SELECT 1::text FROM pg_namespace WHERE nspname=$1"
            (db.schema ∷ [])
          >>= λ exists.
              (if exists == ""
                then session.exec
                    ("CREATE SCHEMA "
                      <> (quote_identifier db.schema
                          <> (" AUTHORIZATION " <> quote_identifier db.user)))
                    []
                else pure tt))

  unfoldable pub execute_sql_file : String → Exec W ScriptFailure (Unit {0})
  execute_sql_file path = wrap_err read_script (read_sql_file files path) >>= λ data_.
      wrap_err (connect_to_database db.name) (connect_target client db db.user db.password)
      >>= λ session.
          deferred (close_quietly session)
            (wrap_err (execute_script path) (session.exec (of_text data_) []))

  abbrev version_query : String
  version_query =
      "SELECT 1::text FROM pg_catalog.pg_class c JOIN pg_catalog.pg_namespace n ON n.oid=c.relnamespace WHERE c.relname='dbversion'"
      <> (if not (db.schema == "") then " AND n.nspname = $1" else "")

  abbrev query_args : List String
  query_args = if not (db.schema == "") then db.schema ∷ [] else []

  abbrev version_table : String
  version_table =
      if not (db.schema == "") then quote_identifier db.schema <> ".dbversion" else "dbversion"

  -- The version of the schema that is there; empty without one.
  unfoldable pub schema_version : DbSession W → Exec W DbError String
  schema_version session = session.query_string version_query query_args >>= λ exists.
      (if not (exists == "")
        then session.query_string ("SELECT mandatory::text FROM " <> version_table) []
        else pure "")

  module _ (stat : String → Result OsError FileInfo)
      (glob : String → W → Result OsError (List String) × W) where
    abbrev run_file : String → Exec W PrepareError (Unit {0})
    run_file path = wrap_err schema_script (execute_sql_file path)

    abbrev enable_timescaledb : DbSession W → String → Exec W PrepareError (Unit {0})
    enable_timescaledb session timescale_file =
        if equal_fold (chars (get db.env "ENABLE_TIMESCALEDB")) (chars "true")
        then (wrap_err failed (session.exec "CREATE EXTENSION IF NOT EXISTS timescaledb CASCADE" [])
            >> run_file timescale_file)
        else pure tt

    unfoldable pub import_schema : DbSession W → String → String → Exec W PrepareError (Unit {0})
    import_schema session schema_file timescale_file =
        run_file schema_file
        >> enable_timescaledb session timescale_file
        >> wrap_err additional_scripts
            (run_additional_sql_scripts stat glob execute_sql_file db.env)

    unfoldable pub create_schema_with :
        DbSession W → String → String → Exec W PrepareError (Unit {0})
    create_schema_with session schema_file timescale_file =
        wrap_err failed (create_namespace session)
        >> wrap_err failed (schema_version session)
        >>= λ version.
            (if not (version == "")
              then pure tt
              else import_schema session schema_file timescale_file)

    unfoldable pub create_schema : String → String → Exec W PrepareError (Unit {0})
    create_schema schema_file timescale_file =
        wrap_err not_connected (connect_target client db db.admin_user db.admin_pass) >>= λ session.
        deferred (close_quietly session) (create_schema_with session schema_file timescale_file)

    abbrev on_admin : String → String → Option (DbSession W) → Partial W PrepareError (Unit {0})
    on_admin schema_file timescale_file none w = none
    on_admin schema_file timescale_file (some session) w = some (
        (deferred (close_quietly session) (create_db session)
            >> create_schema schema_file timescale_file)
          w)

    unfoldable pub prepare : ℕ → String → String → Partial W PrepareError (Unit {0})
    prepare fuel schema_file timescale_file =
        Partial.◌>>=◌
          (Partial.wrap_err not_connected
            (wait_for_connection client db fuel db.admin_user db.admin_pass))
          (λ sess. on_admin schema_file timescale_file sess)
