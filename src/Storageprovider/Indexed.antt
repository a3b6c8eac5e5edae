-- ===== src/Storageprovider/Indexed.antt =====
-- templates/entrypoints/internal/storageprovider/indexed.go: the names of the providers.
use zabbix_docker.Base.{
  String, ◌<>◌, Bool, true, not, ◌&&◌, ◌||◌, Option, none, some, List, [], ◌∷◌, map, if◌then◌else◌,
  ◌==◌, nat_eq, char_eq, string_eq, list_eq, Result, ok, err, ◌>>=◌, map_err, chars, of_text,
  is_some, has_prefix, cut_suffix,
}
use zabbix_docker.Base.Dict.{lookup, insert}
use zabbix_docker.Bootstrap.Environment.{Environment, get}
use zabbix_docker.Bootstrap.Indexed.{IndexedVariable, IndexedError, collect_indexed}
use zabbix_docker.Bootstrap.ProviderSecrets.{provider_secret_suffixes}

pub data NamesError : Type 0 where
  provider_missing : String → NamesError
  credentials_without_provider : String → NamesError
  bad_index : IndexedError → NamesError

abbrev pub schema_suffix : String
schema_suffix = "_SCHEMA"

unfoldable pub base_with : List String → String → Option String
base_with [] name = none
base_with (suffix ∷ suffixes) name = elim (cut_suffix (chars name) (chars suffix)) [
  | some base ↦ some (of_text base)
  | none ↦ base_with suffixes name
]

-- The provider that a credential belongs to, `none` for a name that is no credential.
unfoldable pub credential_base : String → Option String
credential_base name = base_with provider_secret_suffixes name

abbrev of_family : String → String → Bool
of_family prefix name = name == prefix || has_prefix (chars name) (chars (prefix <> "_"))

-- One round of the loop, over the environment `env`.
abbrev checked_credential :
    Environment → String → String → Option String → Environment → Result NamesError Environment
checked_credential env name value none found = ok (insert name value found)
checked_credential env name value (some base) found =
    if value == ""
    then ok found
    else if not (is_some (lookup base env))
    then err (credentials_without_provider base)
    else ok found

unfoldable pub check_variable :
    Environment → String → String → String → Environment → Result NamesError Environment
check_variable env prefix name value found =
    if not (of_family prefix name)
    then ok found
    else elim (cut_suffix (chars name) (chars schema_suffix)) [
      | some base ↦
          if not (value == "") && get env (of_text base) == ""
          then err (provider_missing name)
          else ok found
      | none ↦ checked_credential env name value (credential_base name) found
    ]

unfoldable pub provider_env :
    Environment → String → Environment → Environment → Result NamesError Environment
provider_env env prefix [] found = ok found
provider_env env prefix ((name, value) ∷ rest) found =
    check_variable env prefix name value found >>= λ found'. provider_env env prefix rest found'

unfoldable pub indexed_names : Environment → String → Result NamesError (List String)
indexed_names env prefix = provider_env env prefix env [] >>= λ found.
    map_err bad_index (collect_indexed found (prefix ∷ []) true) >>= λ variables.
    ok (map (λ (v : IndexedVariable). v.name) variables)
