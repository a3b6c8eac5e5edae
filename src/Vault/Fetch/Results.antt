-- ===== src/Vault/Fetch/Results.antt =====
-- What `Fetch` and `ResolveDBCredentials` return.
use zabbix_docker.Base.{
  String, ◌≡◌, refl, ap, ◌≢◌, inl, inr, false, ◌||◌, Option, none, some, [], ◌∷◌, arith, Bool-cases,
  ◌==◌, nat_eq, char_eq, string_eq, list_eq, Result, ok, err, Result-cases, is_empty, Text, chars,
  trim, trim_suffix,
}
use zabbix_docker.Base.Exec
use zabbix_docker.Base.Exec.{Exec}
use zabbix_docker.Base.Partial.{
  OkAnd, OkAnd-map_err, Ends, Ends-pure, Ends-raise, Ends-bind, Ends-wrap_err, ◌>>=◌,
}
use zabbix_docker.Bootstrap.Environment.{Environment, get}
use zabbix_docker.Bootstrap.Retry.{plain}
use zabbix_docker.Vault.{
  Credentials, VaultError, no_certificate_file, url_and_path_must_be_set, wrong_vault,
  read_key_failed, read_certificate_failed, load_certificate_failed, Bytes, Json, credentials_of,
  decode_hashicorp, decode_cyber_ark, decode_login, TokenSource, given_token, app_role,
  token_source,
}
use zabbix_docker.Vault.Tls.{TlsOps, TlsConfig, hashicorp_tls_config, vault_tls_config}
use zabbix_docker.Vault.Request.{Http, Request, request}
use zabbix_docker.Vault.Request.Limits.{request-Fits}
use zabbix_docker.Vault.Fetch.{
  plainly, returned, login_request, login_hashicorp_app_role, token_of, resolve_hashicorp_token,
  fetch_hashicorp, read_key, fetch_cyber_ark, fetch, resolve_db_credentials, is_slash,
}

abbrev Anything : {A : Type 0} → A → Type 0
Anything a = Unit

-- Credentials of the database: they have a user.
abbrev pub IsNamed : Credentials → Type 0
IsNamed creds = creds.username ≢ ""

-- No credentials when Vault is not used for the database, else those of a user.
abbrev pub IsResolved : Environment → Option Credentials → Type 0
IsResolved env none = get env "ZBX_VAULTDBPATH" ≡ ""
IsResolved env (some creds) = IsNamed creds

credentials_of-IsNamed :
    (username : String) (password : Option String)
    → OkAnd IsNamed (credentials_of username password)
credentials_of-IsNamed username none = elim (Bool-cases (username == "")) [
  | inl h ↦ rw h tt
  | inr h ↦ rw h tt
]
credentials_of-IsNamed username (some password) = elim (Bool-cases (username == "")) [
  | inl h ↦ rw h tt
  | inr h ↦ rw h (λ e. cc (h, ap (λ (u : String). u == "") e))
]

decode_hashicorp-IsNamed :
    (json : Json) (data_ : Bytes) → OkAnd IsNamed (decode_hashicorp json data_)
unfolding decode_hashicorp
decode_hashicorp-IsNamed json data_ = elim (Result-cases (json.secret_response data_)) [
  | inr (x, e) ↦ rw (e, decode_hashicorp) tt
  | inl (resp, e) ↦
      rw (e, decode_hashicorp)
        (elim (Bool-cases (is_empty resp.errors)) [
          | inl h ↦ rw h (credentials_of-IsNamed resp.username resp.password)
          | inr h ↦ rw h tt
        ])
]

decode_cyber_ark-IsNamed :
    (json : Json) (data_ : Bytes) → OkAnd IsNamed (decode_cyber_ark json data_)
unfolding decode_cyber_ark
decode_cyber_ark-IsNamed json data_ = elim (Result-cases (json.cyberark_response data_)) [
  | inr (x, e) ↦ rw (e, decode_cyber_ark) tt
  | inl (resp, e) ↦
      rw (e, decode_cyber_ark)
        (elim (Bool-cases (resp.error_code == "")) [
          | inl h ↦ rw h (credentials_of-IsNamed resp.username resp.password)
          | inr h ↦ rw h tt
        ])
]

OkAnd-Anything : {E A : Type 0} (r : Result E A) → OkAnd Anything r
OkAnd-Anything (ok a) = tt
OkAnd-Anything (err e) = tt

plainly-Ends : {W A : Type 0} (m : Exec W VaultError A) → Ends Anything (plainly m)
plainly-Ends m = record { at_state = λ w. (_, _, refl, OkAnd-Anything _) }

returned-Ends :
    {W A : Type 0} (P : A → Type 0) (r : Result VaultError A)
    → OkAnd P r
    → Ends P (returned {W = W} r)
returned-Ends P r p = record { at_state = λ w. (_, _, refl, OkAnd-map_err P plain r p) }

module _ {W Pool Cert Reader : Type 0} (json : Json) (tls : TlsOps W Pool Cert)
    (http : Http W Pool Cert Reader) where
  request-Ends :
      (config : TlsConfig Pool Cert) (req : Request) → Ends Anything (request http config req)
  request-Ends config req = record {
    at_state = λ w.
        let (r, w', e, _, _) =
          request-Fits http config req (λ _. 0) (λ w. omega arith) (λ body n w. omega arith)
            (λ body w. omega arith) (λ w. omega arith) w in
        (r, w', e, OkAnd-Anything r);
  }

  login_hashicorp_app_role-Ends :
      (config : TlsConfig Pool Cert) (base_url : Text) (role_id secret_id : String)
      → Ends Anything (login_hashicorp_app_role json tls http config base_url role_id secret_id)
  unfolding login_hashicorp_app_role
  login_hashicorp_app_role-Ends config base_url role_id secret_id =
      Ends-bind Anything Anything
        (Ends-wrap_err Anything _
          (request-Ends config (login_request json tls http base_url role_id secret_id)))
        (λ data_ _. returned-Ends Anything (decode_login json data_) (OkAnd-Anything _))

  token_of-Ends :
      (config : TlsConfig Pool Cert) (base_url : Text) (source : TokenSource)
      → Ends Anything (token_of json tls http config base_url source)
  token_of-Ends config base_url (given_token token) = Ends-pure Anything token tt
  token_of-Ends config base_url (app_role role_id secret_id) =
      login_hashicorp_app_role-Ends config base_url role_id secret_id

  resolve_hashicorp_token-Ends :
      (env : Environment) (base_url : Text) (config : TlsConfig Pool Cert)
      → Ends Anything (resolve_hashicorp_token json tls http env base_url config)
  unfolding resolve_hashicorp_token
  resolve_hashicorp_token-Ends env base_url config =
      Ends-bind Anything Anything (returned-Ends Anything (token_source env) (OkAnd-Anything _))
        (λ source _. token_of-Ends config base_url source)

  decoded-Ends :
      (config : TlsConfig Pool Cert) (req : Request)
      (decode : Bytes → Result VaultError Credentials)
      → ((data_ : Bytes) → OkAnd IsNamed (decode data_))
      → Ends IsNamed (request http config req >>= λ data_. returned (decode data_))
  decoded-Ends config req decode named =
      Ends-bind Anything IsNamed (request-Ends config req)
        (λ data_ _. returned-Ends IsNamed (decode data_) (named data_))

  fetch_hashicorp-Ends :
      (env : Environment) (base_url db_path : Text)
      → Ends IsNamed (fetch_hashicorp json tls http env base_url db_path)
  unfolding fetch_hashicorp
  fetch_hashicorp-Ends env base_url db_path =
      Ends-bind Anything IsNamed (plainly-Ends (hashicorp_tls_config tls env)) (λ config _.
        Ends-bind Anything IsNamed (resolve_hashicorp_token-Ends env base_url config) (λ token _.
          decoded-Ends config _ (decode_hashicorp json) (decode_hashicorp-IsNamed json)))

  read_key-Ends :
      (key_file : String) (cert_pem : Bytes)
      → Ends Anything (read_key json tls http key_file cert_pem)
  read_key-Ends key_file cert_pem = elim (Bool-cases (key_file == "")) [
    | inl h ↦ rw h (Ends-pure Anything cert_pem tt)
    | inr h ↦ rw h (plainly-Ends (Exec.wrap_err read_key_failed (tls.read_file key_file)))
  ]

  fetch_cyber_ark-Ends :
      (env : Environment) (base_url db_path : Text)
      → Ends IsNamed (fetch_cyber_ark json tls http env base_url db_path)
  unfolding fetch_cyber_ark
  fetch_cyber_ark-Ends env base_url db_path =
      elim (Bool-cases (get env "ZBX_VAULTTLSCERTFILE" == "")) [
        | inl h ↦ rw h (Ends-raise IsNamed (plain no_certificate_file))
        | inr h ↦ rw h (
            Ends-bind Anything IsNamed
              (plainly-Ends (
                Exec.wrap_err read_certificate_failed
                  (tls.read_file (get env "ZBX_VAULTTLSCERTFILE"))))
              (λ cert_pem _.
                Ends-bind Anything IsNamed (read_key-Ends (get env "ZBX_VAULTTLSKEYFILE") cert_pem)
                  (λ key_pem _.
                    Ends-bind Anything IsNamed
                      (plainly-Ends (
                        Exec.wrap_err load_certificate_failed
                          (Exec.lift (tls.key_pair cert_pem key_pem))))
                      (λ cert _.
                        Ends-bind Anything IsNamed
                          (plainly-Ends (vault_tls_config tls env false (cert ∷ [])))
                          (λ config _.
                            decoded-Ends config _ (decode_cyber_ark json)
                              (decode_cyber_ark-IsNamed json))))))
      ]

  fetch-Ends : (env : Environment) → Ends IsNamed (fetch json tls http env)
  unfolding fetch
  fetch-Ends env =
      let vault_url = trim_suffix (chars (get env "ZBX_VAULTURL")) (chars "/") in
      let db_path = trim (is_slash json tls http) (chars (get env "ZBX_VAULTDBPATH")) in
      elim (Bool-cases (is_empty vault_url || is_empty db_path)) [
        | inl h ↦ rw (h, fetch) (Ends-raise IsNamed (plain url_and_path_must_be_set))
        | inr h ↦ elim (Bool-cases (get env "ZBX_VAULT" == "HashiCorp")) [
          | inl g ↦ rw (h, g, fetch) (fetch_hashicorp-Ends env vault_url db_path)
          | inr g ↦ elim (Bool-cases (get env "ZBX_VAULT" == "CyberArk")) [
            | inl f ↦ rw (h, g, f, fetch) (fetch_cyber_ark-Ends env vault_url db_path)
            | inr f ↦ rw (h, g, f, fetch) (Ends-raise IsNamed (plain wrong_vault))
          ]
        ]
      ]

  -- ResolveDBCredentials ends, whatever Vault, the network and the files give. Without an error it
  -- returns credentials whose user is not empty, or none, and none only when ZBX_VAULTDBPATH is empty.
  pub resolve_db_credentials-IsResolved :
      (env : Environment) → Ends (IsResolved env) (resolve_db_credentials json tls http env)
  unfolding resolve_db_credentials
  resolve_db_credentials-IsResolved env = elim (Bool-cases (get env "ZBX_VAULTDBPATH" == "")) [
    | inl h ↦ rw h (Ends-pure (IsResolved env) none ((string_eq.beq_iff _ _).0 h))
    | inr h ↦ rw h (
        Ends-bind IsNamed (IsResolved env) (fetch-Ends env)
          (λ creds named. Ends-pure (IsResolved env) (some creds) named))
  ]
