-- ===== src/Tests/PostgresTests.antt =====
-- Runs of the initialization of PostgreSQL.
use zabbix_docker.Base.{
  ℕ, ◌+◌, ◌-◌, ◌<◌, String, ◌≡◌, refl, inl, inr, false, none, some, [], arith, ltb, if◌then◌else◌,
  Bool-cases, nat_eq, char_eq, string_eq, list_eq, list_beq, ok, err, chars, of_text,
}
use zabbix_docker.Base.Replace.{replace_all}
use zabbix_docker.Postgresql.Database.{new_for_backend}
use zabbix_docker.Postgresql.Connection.{
  DbError, driver_error, DbSession, ConnConfig, Client, conn_config, ssl_mode, wait_for_connection,
}
use zabbix_docker.Postgresql.Connection.Sessions.{wait_for_connection-until}
use zabbix_docker.Postgresql.Schema.{quote_identifier}

abbrev session : DbSession ℕ
session = record {
  query_string = λ text args w. (ok "", w);
  exec = λ text args w. (ok tt, w);
  close = λ w. (ok tt, w);
}

-- A server that refuses the first two connections; the state counts them.
abbrev client : Client ℕ (Unit {0})
client = record {
  parse_config = λ url.
      ok (record {
        target = tt;
        connect_timeout = 10;
        simple_protocol = false;
        runtime_params = [];
      });
  open_session =
      λ timeout config w. (if ltb 1 w then ok session else err (driver_error "refused"), w + 1);
  retry_wait = λ w. (ok tt, w);
  ctx_err = λ w. none;
}

refused-waits :
    (timeout : ℕ) (config : ConnConfig (Unit {0})) (w : ℕ) (e : DbError)
    → (client.open_session timeout config w).0 ≡ err e
    → 2 - (client.open_session timeout config w).1 < 2 - w
refused-waits timeout config w e h = elim (Bool-cases (ltb 1 w)) [
  | inl t ↦ cc (rw t at h)
  | inr f ↦ ground arith
]

accepted :
    (name : String)
    → (config : ConnConfig (Unit {0})) × (conn_config client
          (new_for_backend [])
          name
          "zabbix"
          "zabbix"
        ≡ ok config)
unfolding conn_config
accepted name = (_, refl)

wait_for_connection-until_example :
    (session : DbSession ℕ) × (w' : ℕ) × (wait_for_connection client
        (new_for_backend [])
        3
        "zabbix"
        "zabbix"
        0
      ≡ some (ok (some session), w'))
wait_for_connection-until_example =
    wait_for_connection-until client (new_for_backend []) "zabbix" "zabbix" (λ w. 2 - w) (λ w. refl)
      (λ w. refl) (λ w. omega arith) accepted refused-waits 3 0 (omega arith)

required_mode : ssl_mode "required" ≡ chars "require"
unfolding ssl_mode replace_all chars list_beq
required_mode = refl

quoted_schema : quote_identifier "a\"b" ≡ "\"a\"\"b\""
unfolding quote_identifier replace_all chars of_text
quoted_schema = refl
