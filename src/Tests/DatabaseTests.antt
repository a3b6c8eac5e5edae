-- ===== src/Tests/DatabaseTests.antt =====
-- Runs of the initialization of MySQL and PostgreSQL.
use zabbix_docker.Base.{
  ℕ, ◌+◌, ◌-◌, ◌<◌, String, ◌≡◌, refl, sym, ap, inl, inr, true, none, some, List, [], ◌∷◌, ◌++◌,
  arith, ltb, if◌then◌else◌, Bool-cases, ◌==◌, nat_eq, char_eq, string_eq, list_eq, Result, ok, err,
  ok-injective, Text, chars, of_text, count_code,
}
use zabbix_docker.Base.Dict.{lookup}
use zabbix_docker.Base.Partial.{OkAnd, Ends}
use zabbix_docker.Base.Replace.{replace_all, join_host_port}
use zabbix_docker.Base.Replace.Quoting.{unquote}
use zabbix_docker.Base.Decimal.{pos}
use zabbix_docker.Bootstrap.Os.{OsError, FileInfo, not_exist}
use zabbix_docker.Bootstrap.SqlFile.{SqlFileOps}
use zabbix_docker.Bootstrap.Retry.{Failure, plain, RetryOptions, retry, as_stop}
use zabbix_docker.Bootstrap.Retry.Unlimited.{retry_until}
use zabbix_docker.Vault.Fetch.{resolve_db_credentials}
use zabbix_docker.Mysql.Tls.{CertOps, tls_config}
use zabbix_docker.Mysql.Tls.Verified.{IsVerified, tls_config-IsVerified}
use zabbix_docker.Mysql.Database.{Db, new_for_backend, configure, export_env}
use zabbix_docker.Mysql.Database.Configured.{IsConfigured, configure-IsConfigured}
use zabbix_docker.Mysql.Database.Exported.{lookup-export_env}
use zabbix_docker.Mysql.Connection.{
  DbError, driver_error, DbSession, MysqlConfig, Client, connect_on_fuel,
}
use zabbix_docker.Mysql.Connection.Sessions.{connect_on_fuel-until}
use zabbix_docker.Mysql.Schema.{quote_identifier, execute_statements}
use zabbix_docker.Mysql.Schema.Quoted.{unquote-quote_identifier}
use zabbix_docker.Tests.VaultTests.{json, tls, server, vault_env}
use zabbix_docker.Mysql.Schema.Ordering.{IsRun, execute_statements-IsRun}

-- An attempt that is refused three times.
abbrev options : RetryOptions ℕ String
options = record { attempts = pos 0; on_retry = none; wait = λ w. (ok tt, w) }

abbrev third_time : ℕ → Result (Failure String) (Unit {0}) × ℕ
third_time w = if ltb 2 w then (ok tt, w) else (err (plain "refused"), w + 1)

retry_until_example : (w' : ℕ) × (retry options third_time (λ w. none) 4 0 ≡ some (ok tt, w'))
unfolding as_stop
retry_until_example =
    retry_until options third_time (λ w. none) (λ w. 3 - w) refl (λ w. refl) (λ w. refl)
      (λ w. elim (Bool-cases (ltb 2 w)) [ inl h ↦ rw h tt | inr h ↦ rw h (refl, ground arith) ])
      (λ w. omega arith) (λ last w. omega arith) 4 0 (omega arith)

-- A MySQL server that can be reached from the third request on, and knows the version of a schema. The state
-- is the number of requests.
abbrev mysql_session : DbSession ℕ
mysql_session = record {
  ping = λ w. (ok tt, w);
  query_string = λ text args w. (ok "7000000", w);
  exec = λ text args w. (ok tt, w);
  close = λ w. (ok tt, w);
}

abbrev open_session : ℕ → Result DbError (DbSession ℕ) × ℕ
open_session w = if ltb 2 w then (ok mysql_session, w) else (err (driver_error "refused"), w + 1)

abbrev certs : CertOps ℕ (Unit {0}) (Unit {0})
certs = record {
  system_cert_pool = λ w. (ok tt, w);
  new_cert_pool = tt;
  append_certs_from_pem = λ pool data_. (pool, true);
  load_key_pair = λ cert key w. (ok tt, w);
  read_file = λ path w. (ok [], w);
}

abbrev mysql_client : Client ℕ (Unit {0}) (Unit {0})
mysql_client = record {
  certs = certs;
  check_charset = λ charset. ok tt;
  open_session = λ config. open_session;
  retry_wait = λ w. (ok tt, w);
  ctx_err = λ w. none;
}

abbrev db : Db
db = record (new_for_backend []) { user = "zabbix"; password = "secret"; name = "zabbix" }

abbrev mysql_config : MysqlConfig (Unit {0}) (Unit {0})
mysql_config = record {
  user = "zabbix";
  passwd = "";
  net = "tcp";
  addr = "mysql-server:3306";
  db_name = "";
  timeout = 10;
  interpolate_params = true;
  tls = none;
  charset = "utf8mb4";
}

refused-waits : (w : ℕ) (e : DbError) → (open_session w).0 ≡ err e → 3 - (open_session w).1 < 3 - w
refused-waits w e h = elim (Bool-cases (ltb 2 w)) [
  | inl t ↦ cc (rw t at h)
  | inr f ↦ rw f (ground arith)
]

opened-answers :
    (w : ℕ) (session : DbSession ℕ) → (open_session w).0 ≡ ok session → session ≡ mysql_session
opened-answers w session h = elim (Bool-cases (ltb 2 w)) [
  | inl t ↦ sym (ok-injective (rw t at h))
  | inr f ↦ cc (rw f at h)
]

connect_on_fuel-until_example :
    (session : DbSession ℕ) × (w' : ℕ) × (connect_on_fuel mysql_client db 4 mysql_config 0
      ≡ some (ok (some session), w'))
connect_on_fuel-until_example =
    connect_on_fuel-until mysql_client db mysql_config (λ w. 3 - w) (λ w. refl) (λ w. refl)
      (λ w. omega arith) refused-waits
      (λ w session e h g.
        cc
          (g, ap (λ (s : DbSession ℕ). (s.ping (open_session w).1).0) (opened-answers w session h)))
      4 0 (omega arith)

tls_config-IsVerified_example :
    OkAnd
      (IsVerified (chars "verify_ca"))
      (tls_config certs []
        (record { connect_mode = "verify_ca"; ca_file = ""; cert_file = ""; key_file = "" })
        0).0
tls_config-IsVerified_example =
    tls_config-IsVerified certs []
      (record { connect_mode = "verify_ca"; ca_file = ""; cert_file = ""; key_file = "" }) 0

configure-IsConfigured_example :
    Ends IsConfigured
      (configure (resolve_db_credentials json tls server) (new_for_backend vault_env) "zabbix")
configure-IsConfigured_example =
    configure-IsConfigured json tls server (new_for_backend vault_env) "zabbix"

lookup-export_env_example :
    (lookup "ZBX_DB_USER" (export_env db).env ≡ (if db.from_vault then none else some db.user))
    × (lookup "ZBX_DB_PASSWORD" (export_env db).env
        ≡ (if db.from_vault then none else some db.password))
lookup-export_env_example = lookup-export_env db

quoted_name : quote_identifier "a`b" ≡ "`a``b`"
unfolding quote_identifier replace_all chars of_text
quoted_name = refl

ipv6_host : join_host_port (chars "fe80::1") (chars "3306") ≡ chars "[fe80::1]:3306"
unfolding join_host_port chars count_code
ipv6_host = refl

unquote-quote_identifier_example :
    unquote b'`' (chars (quote_identifier "a`b") ++ chars ".dbversion")
    ≡ some (chars "a`b", chars ".dbversion")
unfolding chars
unquote-quote_identifier_example = unquote-quote_identifier "a`b" (chars ".dbversion") refl

-- A session that keeps what it executes and refuses one statement; the state is the log.
abbrev logging_session : DbSession (List String)
logging_session = record {
  ping = λ w. (ok tt, w);
  query_string = λ text args w. (ok "", w);
  exec = λ text args w.
      (if text == "bad" then err (driver_error "syntax") else ok tt, w ++ (text ∷ []));
  close = λ w. (ok tt, w);
}

abbrev logging_client : Client (List String) (Unit {0}) (Unit {0})
logging_client = record {
  certs = record {
    system_cert_pool = λ w. (ok tt, w);
    new_cert_pool = tt;
    append_certs_from_pem = λ pool data_. (pool, true);
    load_key_pair = λ cert key w. (ok tt, w);
    read_file = λ path w. (ok [], w);
  };
  check_charset = λ charset. ok tt;
  open_session = λ config w. (ok logging_session, w);
  retry_wait = λ w. (ok tt, w);
  ctx_err = λ w. none;
}

abbrev no_files : {W : Type 0} → SqlFileOps W (Unit {0})
no_files = record {
  open_file = λ path w. (err not_exist, w);
  gzip_reader = λ reader w. (err not_exist, w);
  read_all = λ reader w. (err not_exist, w);
  close = λ reader w. w;
}

abbrev statements : List Text
statements = chars "good" ∷ chars "bad" ∷ chars "never" ∷ []

execute_statements-IsRun_example :
    IsRun "schema.sql" 0 statements []
      (execute_statements logging_client no_files db logging_session "schema.sql" 0 statements []).0
      (execute_statements logging_client no_files db logging_session "schema.sql" 0 statements []).1
execute_statements-IsRun_example =
    execute_statements-IsRun logging_client no_files db logging_session "schema.sql" (λ w. w)
      (λ text args w. refl) 0 statements []

abbrev no_stat : String → Result OsError FileInfo
no_stat path = err not_exist

abbrev no_glob : {W : Type 0} → String → W → Result OsError (List String) × W
no_glob pattern w = (ok [], w)

abbrev installed : String
installed = "7000000"
