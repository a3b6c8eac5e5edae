-- ===== src/Tests/VaultTests.antt =====
-- Runs of the Vault client.
use zabbix_docker.Base.{
  ℕ, ◌+◌, ◌≤◌, ◌≡◌, refl, false, none, some, [], ◌∷◌, arith, ltb, if◌then◌else◌, nat_eq, char_eq,
  string_eq, list_eq, Result, ok, err, take, is_empty, chars, trim_left, trim_right, trim,
  cut_prefix, has_prefix, cut,
}
use zabbix_docker.Base.Partial.{Ends}
use zabbix_docker.Bootstrap.Os.{not_exist}
use zabbix_docker.Bootstrap.Environment.{Environment}
use zabbix_docker.Bootstrap.Retry.{Failure, retry, retry_from, round, as_stop}
use zabbix_docker.Vault.{
  Json, Bytes, VaultError, hashicorp_url, cyber_ark_url, retryable_vault_status,
}
use zabbix_docker.Vault.Tls.{TlsOps, TlsConfig}
use zabbix_docker.Vault.Request.{
  Http, Request, max_attempts, request, attempt, judge, read_vault_response, check_size,
}
use zabbix_docker.Vault.Request.Limits.{request-Fits, Fits}
use zabbix_docker.Vault.Fetch.{resolve_db_credentials}
use zabbix_docker.Vault.Fetch.Results.{IsResolved, resolve_db_credentials-IsResolved}

-- A server that is not available once and answers then; the state counts the requests.
abbrev pub server : Http ℕ (Unit {0}) (Unit {0}) Bytes
server = record {
  new_request = λ method url. ok tt;
  send = λ config req w.
      (ok (record { status_code = if ltb 0 w then 200 else 503; body = 1 ∷ 2 ∷ [] }), w + 1);
  read_all = λ body n w. (ok (take n body), w);
  close = λ body w. w;
  wait = λ w. (ok tt, w);
  ctx_err = λ w. none;
}

abbrev no_tls : TlsConfig (Unit {0}) (Unit {0})
no_tls = record { insecure_skip_verify = false; certificates = []; root_cas = none }

abbrev secret : Request
secret = record { method = "GET"; url = "https://vault/v1/secret/data/db"; headers = []; body = [] }

second_answer : request server no_tls secret 0 ≡ some (ok (1 ∷ 2 ∷ []), 2)
unfolding request retry retry_from round attempt judge read_vault_response check_size
    retryable_vault_status as_stop
second_answer = refl

request-Fits_example :
    (r : Result (Failure VaultError) Bytes) × (w' : ℕ) × (request server no_tls secret 0
      ≡ some (r, w'))
    × (w' ≤ 0 + max_attempts)
    × Fits r
request-Fits_example =
    request-Fits server no_tls secret (λ w. w) (λ w. omega arith) (λ body n w. omega arith)
      (λ body w. omega arith) (λ w. omega arith) 0

kv_url :
    hashicorp_url (chars "https://vault") [] (chars "secret/zabbix/db")
    ≡ chars "https://vault/v1/secret/data/zabbix/db"
unfolding hashicorp_url trim trim_left trim_right cut is_empty chars
kv_url = refl

prefix_url :
    cyber_ark_url (chars "https://ark") (chars "api?") (chars "q") ≡ chars "https://ark/api?q"
unfolding cyber_ark_url is_empty has_prefix cut_prefix chars
prefix_url = refl

abbrev pub json : Json
json = record {
  login_payload = λ role_id secret_id. [];
  login_response = λ data_. ok (record { errors = []; client_token = "token" });
  secret_response = λ data_. ok (record { errors = []; username = "zabbix"; password = some "" });
  cyberark_response = λ data_. err not_exist;
}

abbrev pub tls : TlsOps ℕ (Unit {0}) (Unit {0})
tls = record {
  system_cert_pool = λ w. (ok tt, w);
  append_certs_from_pem = λ pool data_. pool;
  key_pair = λ cert key. ok tt;
  read_dir = λ path w. (ok [], w);
  stat = λ path w. (err not_exist, w);
  read_file = λ path w. (err not_exist, w);
}

abbrev pub vault_env : Environment
vault_env =
    ("ZBX_VAULTDBPATH", "secret/zabbix/db")
    ∷ ("ZBX_VAULTURL", "https://vault")
    ∷ ("ZBX_VAULT", "HashiCorp")
    ∷ ("VAULT_TOKEN", "t")
    ∷ []

resolve_db_credentials-IsResolved_example :
    Ends (IsResolved vault_env) (resolve_db_credentials json tls server vault_env)
resolve_db_credentials-IsResolved_example =
    resolve_db_credentials-IsResolved json tls server vault_env
