-- ===== src/Vault/Fetch.antt =====
-- `Fetch` and `ResolveDBCredentials`.
pub mod Results
use zabbix_docker.Base.{
  Char, String, refl, Bool, false, not, ◌||◌, Option, none, some, [], ◌∷◌, ◌++◌, if◌then◌else◌,
  ◌==◌, nat_eq, char_eq, string_eq, list_eq, Result, is_empty, Text, chars, of_text, is_code, trim,
  trim_suffix,
}
use zabbix_docker.Base.Exec
use zabbix_docker.Base.Exec.{Exec}
use zabbix_docker.Base.Partial.{Partial, pure, raise, always, ◌>>=◌, ◌>>◌, wrap_err}
use zabbix_docker.Bootstrap.Environment.{Environment, get}
use zabbix_docker.Bootstrap.Os.{OsError}
use zabbix_docker.Bootstrap.Retry.{Failure, plain, wrapped}
use zabbix_docker.Vault.{
  Credentials, VaultError, url_and_path_must_be_set, wrong_vault, no_certificate_file,
  read_certificate_failed, read_key_failed, load_certificate_failed, Bytes, Json, hashicorp_url,
  cyber_ark_url, decode_hashicorp, decode_cyber_ark, decode_login, TokenSource, given_token,
  app_role, token_source,
}
use zabbix_docker.Vault.Tls.{TlsOps, TlsConfig, hashicorp_tls_config, vault_tls_config}
use zabbix_docker.Vault.Request.{Http, Request, request}

-- An operation that always ends, with its own error.
abbrev plainly : {W A : Type 0} → Exec W VaultError A → Partial W (Failure VaultError) A
plainly m = always (Exec.wrap_err plain m)

abbrev returned : {W A : Type 0} → Result VaultError A → Partial W (Failure VaultError) A
returned r = plainly (Exec.lift r)

module _ {W Pool Cert Reader : Type 0} (json : Json) (tls : TlsOps W Pool Cert)
    (http : Http W Pool Cert Reader) where
  abbrev login_request : Text → String → String → Request
  login_request base_url role_id secret_id = record {
    method = "POST";
    url = of_text (base_url ++ chars "/v1/auth/approle/login");
    headers = ("Content-Type", "application/json") ∷ [];
    body = json.login_payload role_id secret_id;
  }

  unfoldable pub login_hashicorp_app_role :
      TlsConfig Pool Cert → Text → String → String → Partial W (Failure VaultError) String
  login_hashicorp_app_role config base_url role_id secret_id =
      wrap_err (wrapped "login to HashiCorp Vault with AppRole")
        (request http config (login_request base_url role_id secret_id))
      >>= λ data_. returned (decode_login json data_)

  abbrev token_of : TlsConfig Pool Cert → Text → TokenSource → Partial W (Failure VaultError) String
  token_of config base_url (given_token token) = pure token
  token_of config base_url (app_role role_id secret_id) =
      login_hashicorp_app_role config base_url role_id secret_id

  unfoldable pub resolve_hashicorp_token :
      Environment → Text → TlsConfig Pool Cert → Partial W (Failure VaultError) String
  resolve_hashicorp_token env base_url config =
      returned (token_source env) >>= λ source. token_of config base_url source

  abbrev secret_request : Text → String → Request
  secret_request url token = record {
    method = "GET";
    url = of_text url;
    headers = ("X-Vault-Token", token) ∷ [];
    body = [];
  }

  unfoldable pub fetch_hashicorp :
      Environment → Text → Text → Partial W (Failure VaultError) Credentials
  fetch_hashicorp env base_url db_path =
      let url = hashicorp_url base_url (chars (get env "ZBX_VAULTPREFIX")) db_path in
      plainly (hashicorp_tls_config tls env) >>= λ config.
      resolve_hashicorp_token env base_url config >>= λ token.
      request http config (secret_request url token) >>= λ data_.
      returned (decode_hashicorp json data_)

  -- The key's file, which the certificate's stands in for.
  abbrev read_key : String → Bytes → Partial W (Failure VaultError) Bytes
  read_key key_file cert_pem =
      if not (key_file == "")
      then plainly (Exec.wrap_err read_key_failed (tls.read_file key_file))
      else pure cert_pem

  abbrev account_request : Text → Request
  account_request url = record {
    method = "GET";
    url = of_text url;
    headers = ("Content-Type", "application/json") ∷ [];
    body = [];
  }

  unfoldable pub fetch_cyber_ark :
      Environment → Text → Text → Partial W (Failure VaultError) Credentials
  fetch_cyber_ark env base_url db_path =
      let cert_file = get env "ZBX_VAULTTLSCERTFILE" in
      let url = cyber_ark_url base_url (chars (get env "ZBX_VAULTPREFIX")) db_path in
      if cert_file == ""
      then raise (plain no_certificate_file)
      else (plainly (Exec.wrap_err read_certificate_failed (tls.read_file cert_file))
          >>= λ cert_pem. read_key (get env "ZBX_VAULTTLSKEYFILE") cert_pem >>= λ key_pem.
              plainly
                (Exec.wrap_err load_certificate_failed (Exec.lift (tls.key_pair cert_pem key_pem)))
              >>= λ cert. plainly (vault_tls_config tls env false (cert ∷ [])) >>= λ config.
                  request http config (account_request url) >>= λ data_.
                  returned (decode_cyber_ark json data_))

  abbrev is_slash : Char → Bool
  is_slash c = is_code b'/' c

  unfoldable pub fetch : Environment → Partial W (Failure VaultError) Credentials
  fetch env =
      let vault_url = trim_suffix (chars (get env "ZBX_VAULTURL")) (chars "/") in
      let db_path = trim is_slash (chars (get env "ZBX_VAULTDBPATH")) in
      if is_empty vault_url || is_empty db_path
      then raise (plain url_and_path_must_be_set)
      else if get env "ZBX_VAULT" == "HashiCorp"
      then fetch_hashicorp env vault_url db_path
      else if get env "ZBX_VAULT" == "CyberArk"
      then fetch_cyber_ark env vault_url db_path
      else raise (plain wrong_vault)

  unfoldable pub resolve_db_credentials :
      Environment → Partial W (Failure VaultError) (Option Credentials)
  resolve_db_credentials env =
      if get env "ZBX_VAULTDBPATH" == ""
      then pure none
      else (fetch env >>= λ creds. pure (some creds))
