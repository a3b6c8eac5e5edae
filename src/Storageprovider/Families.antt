-- ===== src/Storageprovider/Families.antt =====
-- templates/entrypoints/internal/storageprovider/history.go and telemetry.go, and the descriptions of
-- providers in schema.go.
use zabbix_docker.Base.{
  ℕ, String, Bool, true, false, not, ◌&&◌, Option, some, List, [], ◌∷◌, if◌then◌else◌, nat_eq,
  char_eq, string_eq, list_eq, take, Text, chars, is_some, lower_is,
}
use zabbix_docker.Base.Dict.{Dict, lookup, insert}
use zabbix_docker.Bootstrap.ProviderSecrets.{
  ProviderSecretDefinition, is_file_kind, provider_secret_definitions,
}
use zabbix_docker.Storageprovider.Fields.{Value, boolean, text, Fields}

pub record ProviderDefinition (N : Type 0) : Type 0 where
  pub value_types : Bool
  pub files : List String
  pub web : List String
  pub web_defaults : Fields N
  pub secrets : Bool

-- `reserved` holds the options that are refused; `max_providers` is 0 without a limit.
pub record Parameter (N : Type 0) : Type 0 where
  pub prefix : String
  pub plural : String
  pub plural_input : Bool
  pub max_providers : ℕ
  pub providers : Dict String (ProviderDefinition N)
  pub reserved : List String
  pub defaults : Fields N → Fields N

abbrev pub value_type_option : String
value_type_option = "types"

unfoldable pub tls_fields : List ProviderSecretDefinition → List String
tls_fields [] = []
tls_fields (secret ∷ secrets) =
    let rest = tls_fields secrets in
    if is_file_kind secret.kind && not secret.managed_location then secret.field ∷ rest else rest

abbrev tls_files : List String
tls_files = tls_fields provider_secret_definitions

-- `strings.HasPrefix(strings.ToLower(url), "https://")`
abbrev is_https : Text → Bool
is_https url = lower_is (take 8 url) (chars "https://")

module _ {N : Type 0} where
  abbrev no_defaults : Fields N → Fields N
  no_defaults fields = fields

  abbrev pub history : Parameter N
  history = record {
    prefix = "ZBX_HISTORYPROVIDER";
    plural = "ZBX_HISTORYPROVIDERS";
    plural_input = true;
    max_providers = 0;
    providers =
        (
          "clickhouse",
          record {
            value_types = true;
            files = tls_files;
            web = "provider" ∷ "types" ∷ "url" ∷ "db" ∷ "username" ∷ "password" ∷ [];
            web_defaults = [];
            secrets = true;
          },
        )
        ∷ (
          "elasticsearch",
          record {
            value_types = true;
            files = [];
            web = "provider" ∷ "types" ∷ "url" ∷ [];
            web_defaults = [];
            secrets = false;
          },
        )
        ∷ (
          "sql",
          record { value_types = true; files = []; web = []; web_defaults = []; secrets = false },
        )
        ∷ [];
    reserved = "value_types" ∷ "vault_path" ∷ [];
    defaults = no_defaults;
  }

  abbrev default_true : String → Fields N → Fields N
  default_true key fields =
      if is_some (lookup key fields) then fields else insert key (boolean true) fields

  abbrev url_of : Option (Value N) → Text
  url_of (some (text url)) = chars url
  url_of _ = []

  unfoldable pub telemetry_defaults : Fields N → Fields N
  telemetry_defaults fields =
      if not (is_https (url_of (lookup "url" fields)))
      then fields
      else default_true "ssl_verify_host" (default_true "ssl_verify_peer" fields)

  abbrev empty_text : String → String × Value N
  empty_text key = (key, text "")

  abbrev pub telemetry : Parameter N
  telemetry = record {
    prefix = "ZBX_TELEMETRYPROVIDER";
    plural = "ZBX_TELEMETRYPROVIDERS";
    plural_input = false;
    max_providers = 1;
    providers =
        (
          "clickhouse",
          record {
            value_types = false;
            files = tls_files;
            web =
                "provider" ∷ "url" ∷ "db" ∷ "vault_path" ∷ "ssl_cert_file" ∷ "ssl_key_file"
                ∷ "ssl_ca_location" ∷ "ssl_key_password" ∷ "ssl_verify_peer" ∷ "ssl_verify_host"
                ∷ "username" ∷ "password" ∷ [];
            web_defaults =
                empty_text "url"
                ∷ empty_text "db"
                ∷ empty_text "username"
                ∷ empty_text "password"
                ∷ empty_text "vault_path"
                ∷ empty_text "ssl_cert_file"
                ∷ empty_text "ssl_key_file"
                ∷ empty_text "ssl_key_password"
                ∷ empty_text "ssl_ca_file"
                ∷ empty_text "ssl_ca_location"
                ∷ ("ssl_verify_peer", boolean false)
                ∷ ("ssl_verify_host", boolean false)
                ∷ [];
            secrets = true;
          },
        )
        ∷ [];
    reserved = [];
    defaults = telemetry_defaults;
  }
