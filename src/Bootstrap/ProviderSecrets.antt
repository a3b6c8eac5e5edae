-- ===== src/Bootstrap/ProviderSecrets.antt =====
-- templates/entrypoints/internal/bootstrap/provider_secrets.go: the secrets of a storage provider.
use zabbix_docker.Base.{
  String, ◌<>◌, Bool, true, false, not, ◌&&◌, List, [], ◌∷◌, ◌++◌, ltb, if◌then◌else◌, ◌==◌, nat_eq,
  char_eq, string_eq, list_eq, length, chars,
}
use zabbix_docker.Base.Sort.{sort}
use zabbix_docker.Bootstrap.Environment.{Environment, get}

pub data ProviderSecretKind : Type 0 where
  provider_value_secret : ProviderSecretKind
  provider_file_secret : ProviderSecretKind

abbrev pub is_file_kind : ProviderSecretKind → Bool
is_file_kind provider_value_secret = false
is_file_kind provider_file_secret = true

pub record ProviderSecretDefinition : Type 0 where
  pub suffix : String
  pub field : String
  pub kind : ProviderSecretKind
  pub managed_location : Bool

abbrev value_definition : String → String → ProviderSecretDefinition
value_definition suffix field = record {
  suffix = suffix;
  field = field;
  kind = provider_value_secret;
  managed_location = false;
}

abbrev file_definition : String → String → Bool → ProviderSecretDefinition
file_definition suffix field managed = record {
  suffix = suffix;
  field = field;
  kind = provider_file_secret;
  managed_location = managed;
}

abbrev pub provider_secret_definitions : List ProviderSecretDefinition
provider_secret_definitions =
    value_definition "_USERNAME" "username"
    ∷ value_definition "_PASSWORD" "password"
    ∷ value_definition "_SSL_KEY_PASSWORD" "ssl_key_password"
    ∷ file_definition "_SSL_CERT" "ssl_cert_file" false
    ∷ file_definition "_SSL_KEY" "ssl_key_file" false
    ∷ file_definition "_SSL_CA" "ssl_ca_location" true
    ∷ []

-- The first source of a secret that is set for the provider; the empty string where there is none.
unfoldable pub first_source : Environment → String → Bool → List ProviderSecretDefinition → String
first_source env base include_files [] = ""
first_source env base include_files (secret ∷ secrets) =
    let rest = first_source env base include_files secrets in
    let name = base <> secret.suffix in
    let file_name = name <> (if is_file_kind secret.kind then "FILE" else "_FILE") in
    if is_file_kind secret.kind && not include_files
    then rest
    else if not (get env name == "")
    then name
    else if not (get env file_name == "")
    then file_name
    else rest

abbrev pub configured_provider_secret_source : Environment → String → Bool → String
configured_provider_secret_source env base include_files =
    first_source env base include_files provider_secret_definitions

abbrev longer_suffix : String → String → Bool
longer_suffix s t = ltb (length (chars t)) (length (chars s))

abbrev location_suffix : ProviderSecretDefinition → List String
location_suffix secret = if secret.managed_location then (secret.suffix <> "LOCATION") ∷ [] else []

abbrev source_suffixes : ProviderSecretDefinition → List String
source_suffixes secret =
    if is_file_kind secret.kind
    then secret.suffix ∷ (secret.suffix <> "FILE") ∷ location_suffix secret
    else secret.suffix ∷ (secret.suffix <> "_FILE") ∷ []

abbrev file_suffixes : ProviderSecretDefinition → List String
file_suffixes secret =
    if is_file_kind secret.kind
    then secret.suffix ∷ (secret.suffix <> "FILE") ∷ location_suffix secret
    else []

abbrev only_location : ProviderSecretDefinition → List String
only_location secret = if is_file_kind secret.kind then (secret.suffix <> "LOCATION") ∷ [] else []

unfoldable pub collect_suffixes :
    (ProviderSecretDefinition → List String) → List ProviderSecretDefinition → List String
collect_suffixes f [] = []
collect_suffixes f (secret ∷ secrets) = f secret ++ collect_suffixes f secrets

unfoldable pub provider_secret_suffixes : List String
provider_secret_suffixes =
    sort longer_suffix (collect_suffixes source_suffixes provider_secret_definitions)

unfoldable pub provider_file_secret_suffixes : List String
provider_file_secret_suffixes =
    sort longer_suffix (collect_suffixes file_suffixes provider_secret_definitions)

unfoldable pub provider_location_suffixes : List String
provider_location_suffixes =
    sort longer_suffix (collect_suffixes only_location provider_secret_definitions)
