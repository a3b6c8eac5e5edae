-- ===== src/Storageprovider/Configuration.antt =====
-- templates/entrypoints/internal/storageprovider/configuration.go, and the rendering of schema.go.
pub mod Caching
use zabbix_docker.Base.{
  ℕ, String, ◌<>◌, refl, not, ◌&&◌, Option, none, some, List, [], ◌∷◌, ◌++◌, map, ltb,
  if◌then◌else◌, ◌==◌, nat_eq, char_eq, string_eq, list_eq, Result, ok, err, length, is_empty, Text,
  chars, of_text, trim_space, trim_suffix, join,
}
use zabbix_docker.Base.Dict.{Dict, keys, lookup, insert, erase}
use zabbix_docker.Base.Paths.{is_abs}
use zabbix_docker.Base.Sort.{sort}
use zabbix_docker.Bootstrap.Os.{OsError}
use zabbix_docker.Bootstrap.Environment.{Environment, get, string_less}
use zabbix_docker.Storageprovider.Fields.{
  Value, text, strings, Fields, StorageError, no_option_value, in_provider, provider_required,
  cannot_combine, one_provider_required, not_supported, decode_list, has_secrets, delete_secrets,
  looks_like_json_object,
}
use zabbix_docker.Storageprovider.Options.{quote_option, native_option}
use zabbix_docker.Storageprovider.Indexed.{NamesError, indexed_names, schema_suffix}
use zabbix_docker.Storageprovider.Parameter.{ProviderConfig, validate, decode}
use zabbix_docker.Storageprovider.Families.{ProviderDefinition, Parameter, value_type_option}

pub data ConfigurationError : Type 0 where
  names_error : NamesError → ConfigurationError
  too_many_providers : String → ℕ → ConfigurationError
  storage_error : StorageError → ConfigurationError

-- The cache `decoded` saves decoding a provider twice.
pub record Configuration (N : Type 0) : Type 0 where
  pub env : Environment
  pub param : Parameter N
  pub names : List String
  pub decoded : Dict String (ProviderConfig N)

module _ {N : Type 0} where
  unfoldable pub parameter_names :
      Parameter N → Environment → Result ConfigurationError (List String)
  parameter_names param env = elim (indexed_names env param.prefix) [
    | err e ↦ err (names_error e)
    | ok names ↦
        if not (param.max_providers == 0) && ltb param.max_providers (length names)
        then err (too_many_providers param.prefix param.max_providers)
        else ok names
  ]

  unfoldable pub new_configuration :
      Environment → Parameter N → Result ConfigurationError (Configuration N)
  new_configuration env param = elim (parameter_names param env) [
    | err e ↦ err e
    | ok names ↦ ok (record { env = env; param = param; names = names; decoded = [] })
  ]

-- `unmarshal` is `json.Unmarshal`, `format_float` that of an option; `dir` and `base` are those of `filepath`.
module _ {N : Type 0} (unmarshal : Text → Result OsError (Value N)) (format_float : N → Text)
    (dir base : String → String) where
  abbrev with_schema : Configuration N → String → ProviderConfig N → ProviderConfig N
  with_schema c name config = record config { schema_options = get c.env (name <> schema_suffix) }

  -- The provider, and the configuration with it in the cache.
  unfoldable pub decode_cached :
      Configuration N → String → Result StorageError (ProviderConfig N × Configuration N)
  decode_cached c name = elim (lookup name c.decoded) [
    | some config ↦ ok (config, c)
    | none ↦ elim (decode unmarshal c.param c.env name) [
      | err e ↦ err e
      | ok config ↦ ok (
        with_schema c name config,
        record c { decoded = insert name (with_schema c name config) c.decoded },
      )
    ]
  ]

  unfoldable pub prepare_from :
      Configuration N
      → List String
      → Result StorageError (List (ProviderConfig N) × Configuration N)
  prepare_from c [] = ok ([], c)
  prepare_from c (name ∷ names) =
      if is_empty (trim_space (chars (get c.env (name <> schema_suffix))))
      then prepare_from c names
      else if not (looks_like_json_object (get c.env name))
      then err (provider_required (name <> schema_suffix))
      else (elim (decode_cached c name) [
        | err e ↦ err e
        | ok (config, c') ↦ elim (prepare_from c' names) [
          | err e ↦ err e
          | ok (configs, c'') ↦ ok (config ∷ configs, c'')
        ]
      ])

  unfoldable pub configs_to_prepare :
      Configuration N → Result StorageError (List (ProviderConfig N) × Configuration N)
  configs_to_prepare c = prepare_from c c.names

  abbrev split_file : String → Option (Value N) → Fields N → Fields N
  split_file key (some (text value)) fields =
      if is_abs (chars value)
      then insert key (text (base value)) (
          insert (of_text (trim_suffix (chars key) (chars "_file") ++ chars "_location"))
            (text (dir value)) fields)
      else fields
  split_file key _ fields = fields

  unfoldable pub split_files : List String → Fields N → Fields N
  split_files [] fields = fields
  split_files (key ∷ keys) fields = split_files keys (split_file key (lookup key fields) fields)

  -- The value types are of type []string by then.
  abbrev types_option : Value N → Result StorageError Text
  types_option (strings types) =
      ok (chars "value_types=" ++ quote_option (join (chars ",") (map chars types)))
  types_option _ = err (no_option_value value_type_option)

  abbrev option_of : ProviderDefinition N → Fields N → String → Result StorageError (List Text)
  option_of definition fields key = elim (lookup key fields) [
    | none ↦ ok []
    | some value ↦
        if key == "provider"
        then ok []
        else (elim (if key == value_type_option && definition.value_types
            then types_option value
            else native_option format_float key value) [
              | err e ↦ err e
              | ok option ↦ ok (option ∷ [])
            ])
  ]

  unfoldable pub options_of :
      ProviderDefinition N → Fields N → List String → Result StorageError (List Text)
  options_of definition fields [] = ok []
  options_of definition fields (key ∷ keys) = elim (option_of definition fields key) [
    | err e ↦ err e
    | ok option ↦ elim (options_of definition fields keys) [
      | err e ↦ err e
      | ok options ↦ ok (option ++ options)
    ]
  ]

  unfoldable pub render_native :
      String → ProviderDefinition N → Fields N → Result StorageError String
  render_native provider definition fields =
      let split = split_files definition.files fields in
      elim (options_of definition split (sort string_less (keys split))) [
        | err e ↦ err e
        | ok options ↦ ok (of_text (chars provider ++ (chars ";" ++ join (chars ",") options)))
      ]

  -- What the first loop of `ConfigureNative` collects.
  unfoldable pub native_values :
      Configuration N → List String → Result StorageError (Dict String String × Configuration N)
  native_values c [] = ok ([], c)
  native_values c (name ∷ names) =
      if not (looks_like_json_object (get c.env name))
      then (if has_secrets c.env name then err (provider_required name) else native_values c names)
      else (elim (decode_cached c name) [
        | err e ↦ err e
        | ok (config, c') ↦ elim (render_native config.provider config.definition config.fields) [
          | err e ↦ err (in_provider name e)
          | ok value ↦ elim (native_values c' names) [
            | err e ↦ err e
            | ok (values, c'') ↦ ok (insert name value values, c'')
          ]
        ]
      ])

  unfoldable pub publish : Dict String String → Environment → Environment
  publish [] env = env
  publish ((name, value) ∷ values) env =
      publish values (delete_secrets name (insert name value env))

  unfoldable pub drop_schemas : List String → Environment → Environment
  drop_schemas [] env = env
  drop_schemas (name ∷ names) env = drop_schemas names (erase (name <> schema_suffix) env)

  unfoldable pub configure_native : Configuration N → Result StorageError (Configuration N)
  configure_native c = elim (native_values c c.names) [
    | err e ↦ err e
    | ok (values, c') ↦ ok (record c' { env = drop_schemas c.names (publish values c.env) })
  ]
