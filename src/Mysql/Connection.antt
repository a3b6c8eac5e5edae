-- ===== src/Mysql/Connection.antt =====
-- templates/entrypoints/internal/mysql/connection.go: the sessions, and the wait for the server.
pub mod Sessions
use zabbix_docker.Base.{
  ℕ, String, refl, Bool, true, Option, none, some, List, nat_eq, char_eq, string_eq, list_eq,
  Result, ok, err,
}
use zabbix_docker.Base.Exec
use zabbix_docker.Base.Exec.{Exec}
use zabbix_docker.Base.Partial.{Partial, pure, raise, always, ◌>>=◌, wrap_err}
use zabbix_docker.Base.Decimal.{pos}
use zabbix_docker.Bootstrap.Os.{OsError}
use zabbix_docker.Bootstrap.Environment.{Environment, get}
use zabbix_docker.Bootstrap.Retry.{Failure, plain, RetryOptions, retry}
use zabbix_docker.Mysql.Tls.{TlsError, CertOps, MysqlTls, tls_config}
use zabbix_docker.Mysql.Database.{Db}

pub data DbError : Type 0 where
  -- `sql.ErrNoRows`
  no_rows : DbError
  driver_error : String → DbError

-- What the methods of a session do.
pub record DbSession (W : Type 0) : Type 0 where
  pub ping : Exec W DbError (Unit {0})
  pub query_string : String → List String → Exec W DbError String
  pub exec : String → List String → Exec W DbError (Unit {0})
  pub close : Exec W DbError (Unit {0})

-- `database/sql` with the driver. A row that is scanned holds a text or a null; `join_errors` is `errors.Join`
-- of two errors. The maximal lifetime is in minutes.
pub record SqlDriver (W Connector SqlDb Conn : Type 0) : Type 0 where
  pub open_db : Connector → W → SqlDb × W
  pub set_max_open_conns : SqlDb → ℕ → W → W
  pub set_max_idle_conns : SqlDb → ℕ → W → W
  pub set_conn_max_lifetime : SqlDb → ℕ → W → W
  pub conn : SqlDb → Exec W DbError Conn
  pub ping_context : Conn → Exec W DbError (Unit {0})
  pub query_row : Conn → String → List String → Exec W DbError (Option String)
  pub exec_context : Conn → String → List String → Exec W DbError (Unit {0})
  pub close_conn : Conn → Exec W DbError (Unit {0})
  pub close_db : SqlDb → Exec W DbError (Unit {0})
  pub join_errors : DbError → DbError → DbError

-- `QueryString` of what was scanned: no row and a null are the empty text.
unfoldable pub scanned : Result DbError (Option String) → Result DbError String
scanned (err no_rows) = ok ""
scanned (err (driver_error e)) = err (driver_error e)
scanned (ok none) = ok ""
scanned (ok (some value)) = ok value

module _ {W Connector SqlDb Conn : Type 0} (driver : SqlDriver W Connector SqlDb Conn) where
  abbrev joined : Result DbError (Unit {0}) → Result DbError (Unit {0}) → Result DbError (Unit {0})
  joined (ok _) r = r
  joined (err e) (ok _) = err e
  joined (err e) (err f) = err (driver.join_errors e f)

  -- The connection is closed, and then the pool, whatever the first gave.
  unfoldable pub close_session : SqlDb → Conn → Exec W DbError (Unit {0})
  close_session db conn w =
      let (r, w') = driver.close_conn conn w in
      let (s, w'') = driver.close_db db w' in (joined r s, w'')

  unfoldable pub sql_db_session : SqlDb → Conn → DbSession W
  sql_db_session db conn = record {
    ping = driver.ping_context conn;
    query_string =
        λ query args w. let (r, w') = driver.query_row conn query args w in (scanned r, w');
    exec = driver.exec_context conn;
    close = close_session db conn;
  }

  abbrev opened : SqlDb → Result DbError Conn × W → Result DbError (DbSession W) × W
  opened db (ok conn, w) = (ok (sql_db_session db conn), w)
  opened db (err e, w) = (err e, (driver.close_db db w).1)

  unfoldable pub open_sql_db_session : Connector → Exec W DbError (DbSession W)
  open_sql_db_session connector w =
      let (db, w') = driver.open_db connector w in
      opened db (
        driver.conn db (
          driver.set_conn_max_lifetime db 3
            (driver.set_max_idle_conns db 1 (driver.set_max_open_conns db 1 w'))))

-- `mysql.Config`, with the fields that the program sets. The timeout is in seconds.
pub record MysqlConfig (Pool Cert : Type 0) : Type 0 where
  pub user : String
  pub passwd : String
  pub net : String
  pub addr : String
  pub db_name : String
  pub timeout : ℕ
  pub interpolate_params : Bool
  pub tls : Option (MysqlTls Pool Cert)
  pub charset : String

-- The text of a failure names what was tried.
pub data MysqlError : Type 0 where
  tls_failed : TlsError → MysqlError
  character_set_failed : OsError → MysqlError
  connection_failed : DbError → MysqlError
  connect_to_database : String → DbError → MysqlError
  query_failed : DbError → MysqlError
  statement_failed : DbError → MysqlError
  close_failed : DbError → MysqlError

abbrev pub connect_timeout : ℕ
connect_timeout = 10

-- `mysql.NewConnector` and `openSQLDBSession`.
module _ {W Connector SqlDb Conn Pool Cert : Type 0} (driver : SqlDriver W Connector SqlDb Conn)
    (new_connector : MysqlConfig Pool Cert → Result DbError Connector) where
  unfoldable pub open_db_session : MysqlConfig Pool Cert → Exec W DbError (DbSession W)
  open_db_session config = elim (new_connector config) [
    | err e ↦ Exec.raise e
    | ok connector ↦ open_sql_db_session driver connector
  ]

-- `check_charset` is the test that `Apply` makes of a character set; `open_session` is the field `open` of the database;
-- `retry_wait` and `ctx_err` are those of the terminating context.
pub record Client (W Pool Cert : Type 0) : Type 0 where
  pub certs : CertOps W Pool Cert
  pub check_charset : String → Result OsError (Unit {0})
  pub open_session : MysqlConfig Pool Cert → Exec W DbError (DbSession W)
  pub retry_wait : W → Result (Failure MysqlError) (Unit {0}) × W
  pub ctx_err : W → Option (Failure MysqlError)

module _ {W Pool Cert : Type 0} (client : Client W Pool Cert) (db : Db) where
  abbrev config_with :
      String → String → String → Option (MysqlTls Pool Cert) → MysqlConfig Pool Cert
  config_with db_name user password tls = record {
    user = user;
    passwd = password;
    net = db.network;
    addr = db.address;
    db_name = db_name;
    timeout = connect_timeout;
    interpolate_params = true;
    tls = tls;
    charset = db.charset;
  }

  unfoldable pub conn_config : String → String → String → Exec W MysqlError (MysqlConfig Pool Cert)
  conn_config db_name user password =
      Exec.◌>>=◌ (Exec.wrap_err tls_failed (tls_config client.certs db.env db.tls)) (λ tls.
        Exec.◌>>=◌
          (Exec.wrap_err character_set_failed (Exec.lift (client.check_charset db.charset)))
          (λ _. Exec.pure (config_with db_name user password tls)))

  -- The attempts share the variable `sess`.
  abbrev Shared : Type 0
  Shared = W × Option (DbSession W)

  abbrev after_ping :
      DbSession W
      → Option (DbSession W)
      → Result DbError (Unit {0}) × W
      → Result (Failure MysqlError) (Unit {0}) × Shared
  after_ping session before (ok _, w) = (ok tt, (w, some session))
  after_ping session before (err e, w) =
      (err (plain (connection_failed e)), ((session.close w).1, before))

  abbrev after_open :
      Option (DbSession W)
      → Result DbError (DbSession W) × W
      → Result (Failure MysqlError) (Unit {0}) × Shared
  after_open before (err e, w) = (err (plain (connection_failed e)), (w, before))
  after_open before (ok session, w) = after_ping session before (session.ping w)

  unfoldable pub attempt :
      MysqlConfig Pool Cert → Shared → Result (Failure MysqlError) (Unit {0}) × Shared
  attempt config (w, before) = after_open before (client.open_session config w)

  abbrev pub wait_with : Shared → Result (Failure MysqlError) (Unit {0}) × Shared
  wait_with (w, before) = let (r, w') = client.retry_wait w in (r, (w', before))

  -- No limit on the attempts.
  abbrev pub options : RetryOptions Shared MysqlError
  options = record { attempts = pos 0; on_retry = none; wait = wait_with }

  abbrev pub ctx_err_with : Shared → Option (Failure MysqlError)
  ctx_err_with (w, _) = client.ctx_err w

  -- Without an error the last attempt has set the variable.
  abbrev pub waited :
      Result (Failure MysqlError) (Unit {0})
      → Option (DbSession W)
      → Result (Failure MysqlError) (Option (DbSession W))
  waited (err e) sess = err e
  waited (ok _) sess = ok sess

  -- The loop, on fuel; a session that was never set is `none`.
  unfoldable pub connect_on_fuel :
      ℕ → MysqlConfig Pool Cert → Partial W (Failure MysqlError) (Option (DbSession W))
  connect_on_fuel fuel config w =
      elim (retry options (attempt config) ctx_err_with fuel (w, none)) [
        | none ↦ none
        | some (r, (w', sess)) ↦ some (waited r sess, w')
      ]

  unfoldable pub wait_for_connection :
      ℕ → String → String → Partial W (Failure MysqlError) (Option (DbSession W))
  wait_for_connection fuel user password =
      always (Exec.wrap_err plain (conn_config "" user password)) >>= λ config.
      connect_on_fuel fuel config

  -- A method called on the session; a nil session is a panic, written as no result.
  abbrev pub on_session :
      {A : Type 0}
      → Option (DbSession W)
      → (DbSession W → Partial W (Failure MysqlError) A)
      → Partial W (Failure MysqlError) A
  on_session none f w = none
  on_session (some session) f w = f session w

  unfoldable pub wait : ℕ → Partial W (Failure MysqlError) (Unit {0})
  wait fuel = wait_for_connection fuel db.user db.password >>= λ sess.
      on_session sess
        (λ session. always (Exec.wrap_err (λ e. plain (close_failed e)) session.close))

module _ {W : Type 0} (session : DbSession W) where
  unfoldable pub query : String → List String → Exec W MysqlError String
  query text args = Exec.wrap_err query_failed (session.query_string text args)

  unfoldable pub execute : String → List String → Exec W MysqlError (Unit {0})
  execute text args = Exec.wrap_err statement_failed (session.exec text args)
