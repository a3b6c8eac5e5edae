-- ===== src/Mysql/Schema.antt =====
-- templates/entrypoints/internal/mysql/schema.go: the user, the database and the schema.
pub mod Quoted
pub mod Ordering
use zabbix_docker.Base.{
  ℕ, ◌+◌, ◌*◌, String, ◌<>◌, ◌≡◌, refl, not, Option, none, some, List, [], ◌∷◌, ◌++◌, if◌then◌else◌,
  ◌==◌, nat_eq, char_eq, string_eq, list_eq, Result, Text, chars, of_text,
}
use zabbix_docker.Base.Exec
use zabbix_docker.Base.Exec.{Exec, pure, lift, ◌>>=◌, ◌>>◌, wrap_err}
use zabbix_docker.Base.Replace.{replace_all}
use zabbix_docker.Base.Partial
use zabbix_docker.Base.Partial.{Partial}
use zabbix_docker.Bootstrap.Os.{OsError, FileInfo}
use zabbix_docker.Bootstrap.Files.{deferred}
use zabbix_docker.Bootstrap.SqlFile.{SqlFileError, SqlFileOps, read_sql_file}
use zabbix_docker.Bootstrap.Retry.{Failure}
use zabbix_docker.Bootstrap.Database.{ScriptError, script_failed, run_additional_sql_scripts}
use zabbix_docker.Mysql.SqlScript.{SqlError, split_sql_statements}
use zabbix_docker.Mysql.SqlScript.Total.{split_sql_statements-total}
use zabbix_docker.Mysql.Database.{Db}
use zabbix_docker.Mysql.Connection.{
  DbError, DbSession, MysqlError, Client, conn_config, connect_to_database, query, execute,
  wait_for_connection, on_session,
}

abbrev pub zabbix_db_privileges : String
zabbix_db_privileges =
    "SELECT, INSERT, UPDATE, DELETE, CREATE, DROP, ALTER, INDEX, CREATE TEMPORARY TABLES, TRIGGER, REFERENCES"

unfoldable pub quote_identifier : String → String
quote_identifier value =
    of_text (chars "`" ++ (replace_all b'`' (chars "``") (chars value) ++ chars "`"))

pub data ScriptFailure : Type 0 where
  read_script : SqlFileError → ScriptFailure
  parse_script : String → SqlError → ScriptFailure
  connect : MysqlError → ScriptFailure
  execute_statement : String → ℕ → DbError → ScriptFailure

pub data PrepareError : Type 0 where
  not_connected : Failure MysqlError → PrepareError
  failed : MysqlError → PrepareError
  schema_script : ScriptFailure → PrepareError
  additional_scripts : ScriptError ScriptFailure → PrepareError

-- The result of a run on fuel that has enough of it.
abbrev finished : {A : Type 0} → (o : Option A) → (a : A) × (o ≡ some a) → A
finished none (a, _) = a
finished (some b) _ = b

-- `splitSQLStatements`, whose loops always end.
unfoldable pub statements_of : Text → Result SqlError (List Text)
statements_of script = finished (split_sql_statements script) (split_sql_statements-total script)

module _ {W Pool Cert Reader : Type 0} (client : Client W Pool Cert) (files : SqlFileOps W Reader)
    (db : Db) where
  unfoldable pub read_sql_statements : String → Exec W ScriptFailure (List Text)
  read_sql_statements path = wrap_err read_script (read_sql_file files path) >>= λ data_.
      wrap_err (parse_script path) (lift (statements_of data_))

  -- The loop over the statements, from the given index on.
  unfoldable pub execute_statements :
      DbSession W → String → ℕ → List Text → Exec W ScriptFailure (Unit {0})
  execute_statements session path index [] = pure tt
  execute_statements session path index (statement ∷ statements) =
      wrap_err (execute_statement path (index + 1)) (session.exec (of_text statement) [])
      >> execute_statements session path (index + 1) statements

  abbrev close_quietly : DbSession W → W → W
  close_quietly session w = (session.close w).1

  unfoldable pub execute_sql_file : String → Exec W ScriptFailure (Unit {0})
  execute_sql_file path = read_sql_statements path >>= λ statements.
      wrap_err connect (conn_config client db db.name db.admin_user db.admin_pass) >>= λ config.
      wrap_err (λ e. connect (connect_to_database db.name e)) (client.open_session config)
      >>= λ session. deferred (close_quietly session) (execute_statements session path 0 statements)

  abbrev grant : String
  grant =
      "GRANT " <> (zabbix_db_privileges <> (" ON " <> (quote_identifier db.name <> ".* TO ?@'%'")))

  unfoldable pub ensure_user : DbSession W → Exec W MysqlError (Unit {0})
  ensure_user session =
      if not db.create_user
      then pure tt
      else (query session "SELECT 1 FROM mysql.user WHERE user = ? AND host = '%'" (db.user ∷ [])
          >>= λ exists.
              execute session
                (if not (exists == "")
                  then "ALTER USER ?@'%' IDENTIFIED BY ?"
                  else "CREATE USER ?@'%' IDENTIFIED BY ?")
                (db.user ∷ db.password ∷ [])
              >> execute session grant (db.user ∷ []))

  abbrev create_statement : String
  create_statement =
      "CREATE DATABASE "
      <> (quote_identifier db.name
          <> (" CHARACTER SET "
              <> (quote_identifier db.charset <> (" COLLATE " <> quote_identifier db.collation))))

  unfoldable pub create_db : DbSession W → Exec W MysqlError (Unit {0})
  create_db session =
      query session "SELECT SCHEMA_NAME FROM information_schema.SCHEMATA WHERE SCHEMA_NAME = ?"
        (db.name ∷ [])
      >>= λ exists.
          (if not (exists == "")
            then pure tt
            else (execute session create_statement [] >> execute session grant (db.user ∷ [])))

  abbrev version_of : DbSession W → String → Exec W MysqlError String
  version_of session exists =
      if not (exists == "")
      then query session ("SELECT mandatory FROM " <> (quote_identifier db.name <> ".dbversion")) []
      else pure ""

  -- The version of the schema that is there; empty without one.
  unfoldable pub schema_version : DbSession W → Exec W MysqlError String
  schema_version session =
      query session
        "SELECT 1 FROM information_schema.tables WHERE table_schema = ? AND table_name = 'dbversion'"
        (db.name ∷ [])
      >>= λ exists. version_of session exists

  module _ (stat : String → Result OsError FileInfo)
      (glob : String → W → Result OsError (List String) × W) where
    unfoldable pub import_schema : String → Exec W PrepareError (Unit {0})
    import_schema schema_file =
        wrap_err schema_script (execute_sql_file schema_file)
        >> wrap_err additional_scripts
            (run_additional_sql_scripts stat glob execute_sql_file db.env)

    unfoldable pub create_schema : DbSession W → String → Exec W PrepareError (Unit {0})
    create_schema session schema_file = wrap_err failed (schema_version session) >>= λ version.
        (if not (version == "") then pure tt else import_schema schema_file)

    unfoldable pub prepare_with : DbSession W → String → Exec W PrepareError (Unit {0})
    prepare_with admin schema_file = deferred (close_quietly admin) (
        wrap_err failed (ensure_user admin)
        >> wrap_err failed (create_db admin)
        >> create_schema admin schema_file)

    abbrev on_admin : String → Option (DbSession W) → Partial W PrepareError (Unit {0})
    on_admin schema_file none w = none
    on_admin schema_file (some admin) w = some (prepare_with admin schema_file w)

    unfoldable pub prepare : ℕ → String → Partial W PrepareError (Unit {0})
    prepare fuel schema_file =
        Partial.◌>>=◌
          (Partial.wrap_err not_connected
            (wait_for_connection client db fuel db.admin_user db.admin_pass))
          (λ sess. on_admin schema_file sess)
