-- ===== src/Vault/Request.antt =====
-- `vaultClient.request`: one request, repeated while Vault is not available.
pub mod Limits
use zabbix_docker.Base.{
  ℕ, ◌+◌, String, refl, not, ◌||◌, Option, none, some, List, [], ltb, leb, if◌then◌else◌, nat_eq,
  char_eq, string_eq, list_eq, Result, ok, err, length,
}
use zabbix_docker.Base.Exec.{Exec}
use zabbix_docker.Base.Partial.{Partial}
use zabbix_docker.Base.Decimal.{pos}
use zabbix_docker.Bootstrap.Os.{OsError}
use zabbix_docker.Bootstrap.Retry.{Failure, plain, stop, RetryOptions, retry}
use zabbix_docker.Vault.{
  VaultError, request_failed, bad_status, read_failed, response_too_large, Bytes,
  retryable_vault_status,
}
use zabbix_docker.Vault.Tls.{TlsConfig}

pub record Request : Type 0 where
  pub method : String
  pub url : String
  pub headers : List (String × String)
  pub body : Bytes

-- A reply; its body is read through a reader.
pub record Response (Reader : Type 0) : Type 0 where
  pub status_code : ℕ
  pub body : Reader

-- `net/http` over the state `W`. `new_request` is the test of the method and the URL; `read_all` reads at
-- most the given number of bytes.
pub record Http (W Pool Cert Reader : Type 0) : Type 0 where
  pub new_request : String → String → Result OsError (Unit {0})
  pub send : TlsConfig Pool Cert → Request → Exec W OsError (Response Reader)
  pub read_all : Reader → ℕ → Exec W OsError Bytes
  pub close : Reader → W → W
  pub wait : W → Result (Failure VaultError) (Unit {0}) × W
  pub ctx_err : W → Option (Failure VaultError)

abbrev pub max_attempts : ℕ
max_attempts = 3

abbrev pub max_resp_size : ℕ
max_resp_size = 1048576

unfoldable pub check_size : Result OsError Bytes → Result VaultError Bytes
check_size (err e) = err (read_failed e)
check_size (ok data_) =
    if ltb max_resp_size (length data_) then err response_too_large else ok data_

module _ {W Pool Cert Reader : Type 0} (http : Http W Pool Cert Reader)
    (config : TlsConfig Pool Cert) where
  unfoldable pub read_vault_response : Reader → Exec W VaultError Bytes
  read_vault_response body w =
      let (r, w') = http.read_all body (max_resp_size + 1) w in (check_size r, w')

  -- What the attempt makes of the status and of the body.
  unfoldable pub judge :
      ℕ → Result VaultError Bytes → Bytes → Result (Failure VaultError) (Unit {0}) × Bytes
  judge status read before =
      if ltb status 200 || leb 300 status
      then (if not (retryable_vault_status status)
          then (err (stop (plain (bad_status status))), before)
          else (err (plain (bad_status status)), before))
      else elim read [ err e ↦ (err (plain e), before) | ok data_ ↦ (ok tt, data_) ]

  -- The state of the attempts is the world and the variable `data` that they share.
  unfoldable pub attempt :
      Request → W × Bytes → Result (Failure VaultError) (Unit {0}) × (W × Bytes)
  attempt req (w, before) = elim (http.new_request req.method req.url) [
    | err e ↦ (err (stop (plain (request_failed e))), (w, before))
    | ok _ ↦
        let (sent, w') = http.send config req w in
        elim sent [
          | err e ↦ (err (plain (request_failed e)), (w', before))
          | ok resp ↦
              let (read, w'') = read_vault_response resp.body w' in
              let (r, data_) = judge resp.status_code read before in
              (r, (http.close resp.body w'', data_))
        ]
  ]

  abbrev pub wait_with : W × Bytes → Result (Failure VaultError) (Unit {0}) × (W × Bytes)
  wait_with (w, data_) = let (r, w') = http.wait w in (r, (w', data_))

  abbrev pub options : RetryOptions (W × Bytes) VaultError
  options = record { attempts = pos max_attempts; on_retry = none; wait = wait_with }

  abbrev pub ctx_err_with : W × Bytes → Option (Failure VaultError)
  ctx_err_with (w, _) = http.ctx_err w

  abbrev received :
      Result (Failure VaultError) (Unit {0}) → Bytes → Result (Failure VaultError) Bytes
  received (err e) data_ = err e
  received (ok _) data_ = ok data_

  -- One unit of fuel more than there are attempts.
  unfoldable pub request : Request → Partial W (Failure VaultError) Bytes
  request req w = elim (retry options (attempt req) ctx_err_with (max_attempts + 1) (w, [])) [
    | none ↦ none
    | some (r, (w', data_)) ↦ some (received r data_, w')
  ]
