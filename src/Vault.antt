-- ===== src/Vault.antt =====
-- templates/entrypoints/internal/vault/vault.go: the database credentials of HashiCorp Vault or CyberArk.
pub mod Tls
pub mod Request
pub mod Fetch
use zabbix_docker.Base.{
  ℕ, Char, String, refl, Bool, true, false, not, ◌||◌, Option, none, some, List, [], ◌∷◌, ◌++◌,
  if◌then◌else◌, ◌==◌, nat_eq, char_eq, string_eq, list_eq, Result, ok, err, is_empty, Text, chars,
  is_code, trim, trim_space, has_prefix, cut, lower_is,
}
use zabbix_docker.Bootstrap.Environment.{Environment, get}
use zabbix_docker.Bootstrap.Os.{OsError}

pub record Credentials : Type 0 where
  pub username : String
  pub password : String

pub data VaultError : Type 0 where
  url_and_path_must_be_set : VaultError
  wrong_vault : VaultError
  secret_without_role : VaultError
  no_token_and_no_role : VaultError
  role_without_secret : VaultError
  decode_failed : OsError → VaultError
  reported : List String → VaultError
  no_client_token : VaultError
  no_username : VaultError
  no_password : VaultError
  invalid_ssl_verify : String → VaultError
  no_certificate_file : VaultError
  read_certificate_failed : OsError → VaultError
  read_key_failed : OsError → VaultError
  load_certificate_failed : OsError → VaultError
  ca_pool_failed : OsError → VaultError
  request_failed : OsError → VaultError
  bad_status : ℕ → VaultError
  read_failed : OsError → VaultError
  response_too_large : VaultError

-- The bytes of a request or of a reply.
abbrev pub Bytes : Type 0
Bytes = List ℕ

-- The replies, as `json.Unmarshal` fills them in; a missing string is empty, a missing pointer is `none`.
pub record LoginResponse : Type 0 where
  pub errors : List String
  pub client_token : String

pub record SecretResponse : Type 0 where
  pub errors : List String
  pub username : String
  pub password : Option String

pub record CyberArkResponse : Type 0 where
  pub error_code : String
  pub username : String
  pub password : Option String

-- `encoding/json` at the types of the program.
pub record Json : Type 0 where
  pub login_payload : String → String → Bytes
  pub login_response : Bytes → Result OsError LoginResponse
  pub secret_response : Bytes → Result OsError SecretResponse
  pub cyberark_response : Bytes → Result OsError CyberArkResponse

unfoldable pub vault_tls_verification : String → Result VaultError Bool
vault_tls_verification value =
    let word = trim_space (chars value) in
    if is_empty word
      || lower_is word (chars "1")
      || lower_is word (chars "true")
      || lower_is word (chars "yes")
      || lower_is word (chars "on")
    then ok true
    else if lower_is word (chars "0")
        || lower_is word (chars "false")
        || lower_is word (chars "no")
        || lower_is word (chars "off")
    then ok false
    else err (invalid_ssl_verify value)

abbrev is_slash : Char → Bool
is_slash c = is_code b'/' c

-- The mount point and what follows it; a path of one segment stands for both.
abbrev mount_and_path : Text → Option (Text × Text) → Text × Text
mount_and_path db_path none = (db_path, db_path)
mount_and_path db_path (some (mount, secret_path)) = (mount, secret_path)

unfoldable pub hashicorp_url : Text → Text → Text → Text
hashicorp_url base_url configured_prefix db_path =
    let prefix = trim is_slash configured_prefix in
    let (mount, secret_path) = mount_and_path db_path (cut b'/' db_path) in
    if is_empty prefix
    then base_url
      ++ (chars "/" ++ (chars "v1/" ++ (mount ++ (chars "/data" ++ (chars "/" ++ secret_path)))))
    else base_url ++ (chars "/" ++ (prefix ++ (chars "/" ++ db_path)))

unfoldable pub cyber_ark_url : Text → Text → Text → Text
cyber_ark_url base_url prefix db_path =
    if is_empty prefix
    then base_url ++ (chars "/AIMWebService/api/Accounts?" ++ db_path)
    else if not (has_prefix prefix (chars "/"))
    then base_url ++ (chars "/" ++ (prefix ++ db_path))
    else base_url ++ (prefix ++ db_path)

abbrev credentials_of : String → Option String → Result VaultError Credentials
credentials_of username none = if username == "" then err no_username else err no_password
credentials_of username (some password) =
    if username == ""
    then err no_username
    else ok (record { username = username; password = password })

unfoldable pub decode_hashicorp : Json → Bytes → Result VaultError Credentials
decode_hashicorp json data_ = elim (json.secret_response data_) [
  | err e ↦ err (decode_failed e)
  | ok resp ↦
      if not (is_empty resp.errors)
      then err (reported resp.errors)
      else credentials_of resp.username resp.password
]

unfoldable pub decode_cyber_ark : Json → Bytes → Result VaultError Credentials
decode_cyber_ark json data_ = elim (json.cyberark_response data_) [
  | err e ↦ err (decode_failed e)
  | ok resp ↦
      if not (resp.error_code == "")
      then err (reported (resp.error_code ∷ []))
      else credentials_of resp.username resp.password
]

-- The token of a login with an application role.
unfoldable pub decode_login : Json → Bytes → Result VaultError String
decode_login json data_ = elim (json.login_response data_) [
  | err e ↦ err (decode_failed e)
  | ok resp ↦
      if not (is_empty resp.errors)
      then err (reported resp.errors)
      else if resp.client_token == ""
      then err no_client_token
      else ok resp.client_token
]

-- Where the token comes from.
pub data TokenSource : Type 0 where
  given_token : String → TokenSource
  app_role : String → String → TokenSource

unfoldable pub token_source : Environment → Result VaultError TokenSource
token_source env =
    let token = get env "VAULT_TOKEN" in
    let role_id = get env "ZBX_VAULTAPPROLEID" in
    let secret_id = get env "ZBX_VAULTAPPSECRETID" in
    if not (token == "")
    then ok (given_token token)
    else if role_id == ""
    then (if not (secret_id == "") then err secret_without_role else err no_token_and_no_role)
    else if secret_id == ""
    then err role_without_secret
    else ok (app_role role_id secret_id)

unfoldable pub retryable_vault_status : ℕ → Bool
retryable_vault_status status =
    status == 429 || status == 500 || status == 502 || status == 503 || status == 504
