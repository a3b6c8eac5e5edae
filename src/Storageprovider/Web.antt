-- ===== src/Storageprovider/Web.antt =====
-- templates/entrypoints/internal/storageprovider/schema.go: what the web frontend is given.
use zabbix_docker.Base.{
  ℕ, String, ◌<>◌, not, ◌&&◌, none, some, List, [], ◌∷◌, ◌++◌, map, if◌then◌else◌, ◌==◌, nat_eq,
  char_eq, string_eq, list_eq, Result, ok, err, length, is_empty, Text, chars, trim_space,
}
use zabbix_docker.Base.Dict.{keys, lookup, insert, erase}
use zabbix_docker.Bootstrap.Os.{OsError}
use zabbix_docker.Bootstrap.Environment.{Environment, get}
use zabbix_docker.Storageprovider.Fields.{
  Value, Fields, StorageError, in_provider, cannot_combine, one_provider_required, not_supported,
  decode_list, has_secrets, delete_secrets,
}
use zabbix_docker.Storageprovider.Indexed.{schema_suffix}
use zabbix_docker.Storageprovider.Parameter.{ProviderConfig, validate, decode}
use zabbix_docker.Storageprovider.Families.{ProviderDefinition, Parameter}
use zabbix_docker.Storageprovider.Configuration.{ConfigurationError, storage_error, parameter_names}

module _ {N : Type 0} (unmarshal : Text → Result OsError (Value N)) where
  unfoldable pub web_options : Fields N → List String → Fields N → Fields N
  web_options fields [] result = result
  web_options fields (key ∷ keys) result =
      web_options fields keys
        (elim (lookup key fields) [ none ↦ result | some value ↦ insert key value result ])

  unfoldable pub web_fields : ProviderDefinition N → Fields N → Fields N
  web_fields definition fields = web_options fields definition.web definition.web_defaults

  unfoldable pub plural_providers :
      Parameter N → Environment → ℕ → Result StorageError (List (Fields N))
  plural_providers param env indexed =
      if not param.plural_input
      then (if not (is_empty (trim_space (chars (get env param.plural))))
          then err (not_supported param.plural)
          else ok [])
      else (elim (decode_list unmarshal (get env param.plural)) [
        | err e ↦ err (in_provider param.plural e)
        | ok providers ↦
            if not (is_empty providers) && not (indexed == 0)
            then err (cannot_combine param.plural)
            else if has_secrets env param.plural && not (length providers == 1)
            then err (one_provider_required param.plural)
            else ok providers
      ])

  abbrev for_web : ProviderConfig N → List (Fields N)
  for_web config =
      if is_empty config.definition.web then [] else web_fields config.definition config.fields ∷ []

  unfoldable pub web_of_all :
      List (Result StorageError (ProviderConfig N)) → Result StorageError (List (Fields N))
  web_of_all [] = ok []
  web_of_all (r ∷ rs) = elim r [
    | err e ↦ err e
    | ok config ↦ elim (web_of_all rs) [ err e ↦ err e | ok rest ↦ ok (for_web config ++ rest) ]
  ]

  unfoldable pub drop_providers : List String → Environment → Environment
  drop_providers [] env = env
  drop_providers (name ∷ names) env =
      drop_providers names (erase (name <> schema_suffix) (delete_secrets name (erase name env)))

  abbrev web_result :
      Parameter N
      → Environment
      → List String
      → List (Fields N)
      → Result ConfigurationError (List (Fields N) × Environment)
  web_result param env names plural =
      elim (web_of_all
        (map (decode unmarshal param env) names ++ map (validate param env param.plural) plural)) [
          | err e ↦ err (storage_error e)
          | ok providers ↦ ok (providers, delete_secrets param.plural (drop_providers names env))
        ]

  unfoldable pub web_providers :
      Environment → Parameter N → Result ConfigurationError (List (Fields N) × Environment)
  web_providers env param = elim (parameter_names param env) [
    | err e ↦ err e
    | ok names ↦ elim (plural_providers param env (length names)) [
      | err e ↦ err (storage_error e)
      | ok plural ↦ web_result param env names plural
    ]
  ]
