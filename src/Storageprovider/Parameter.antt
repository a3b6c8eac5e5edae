-- ===== src/Storageprovider/Parameter.antt =====
-- templates/entrypoints/internal/storageprovider/schema.go: what a provider of a family may hold.
use zabbix_docker.Base.{
  String, Bool, not, ◌&&◌, ◌||◌, Option, none, some, List, [], ◌∷◌, ◌++◌, if◌then◌else◌, ◌==◌,
  nat_eq, char_eq, string_eq, list_eq, contains, Result, ok, err, Text, chars,
}
use zabbix_docker.Base.Dict.{lookup}
use zabbix_docker.Bootstrap.Os.{OsError}
use zabbix_docker.Bootstrap.Environment.{Environment, get}
use zabbix_docker.Storageprovider.Fields.{
  Value, text, array, strings, Items, no_items, item, Fields, StorageError, no_value_types,
  no_type_name, unknown_provider, invalid_option, managed_option, reserved_option,
  credentials_not_supported, in_provider, decode_object, has_secrets, apply_secrets, contains_any,
  validate_file_path,
}
use zabbix_docker.Storageprovider.Families.{ProviderDefinition, Parameter, value_type_option}

pub record ProviderConfig (N : Type 0) : Type 0 where
  pub name : String
  pub provider : String
  pub schema_options : String
  pub fields : Fields N
  pub value_types : List String
  pub definition : ProviderDefinition N

abbrev managed_locations : List String
managed_locations =
    "ssl_ca_file" ∷ "ssl_ca_location" ∷ "ssl_cert_location" ∷ "ssl_key_location" ∷ []

abbrev is_type_name : String → Bool
is_type_name name = not (name == "") && not (contains_any (b'\r' ∷ b'\n' ∷ []) (chars name))

module _ {N : Type 0} where
  abbrev type_name : Value N → Result StorageError String
  type_name (text name) = if is_type_name name then ok name else err no_type_name
  type_name _ = err no_type_name

  -- The names so far stand in front; one that is there already is passed over.
  unfoldable pub types_from : List String → Items N → Result StorageError (List String)
  types_from types no_items = ok types
  types_from types (item value items) = elim (type_name value) [
    | err e ↦ err e
    | ok name ↦ types_from (if contains types name then types else types ++ (name ∷ [])) items
  ]

  unfoldable pub parse_value_types : Value N → Result StorageError (List String)
  parse_value_types (array (item value items)) = types_from [] (item value items)
  parse_value_types _ = err no_value_types

  abbrev checked_file : ProviderDefinition N → String → Value N → Result StorageError (Value N)
  checked_file definition key value =
      if contains definition.files key
      then (elim (validate_file_path value key) [ err e ↦ err e | ok _ ↦ ok value ])
      else ok value

  -- One option; the value types are put in its place.
  unfoldable pub validate_option :
      Parameter N → ProviderDefinition N → String → String → Value N → Result StorageError (Value N)
  validate_option param definition name key value =
      if key == "" || contains_any (b',' ∷ b'=' ∷ b';' ∷ b'\r' ∷ b'\n' ∷ []) (chars key)
      then err (invalid_option name key)
      else if contains managed_locations key
      then err (managed_option name key)
      else if contains param.reserved key
      then err (reserved_option name key)
      else if key == value_type_option && definition.value_types
      then (elim (parse_value_types value) [
        | err e ↦ err (in_provider name e)
        | ok types ↦ ok (strings types)
      ])
      else (elim (checked_file definition key value) [
        | err e ↦ err (in_provider name e)
        | ok value' ↦ ok value'
      ])

  unfoldable pub validate_options :
      Parameter N → ProviderDefinition N → String → Fields N → Result StorageError (Fields N)
  validate_options param definition name [] = ok []
  validate_options param definition name ((key, value) ∷ fields) =
      elim (validate_option param definition name key value) [
        | err e ↦ err e
        | ok value' ↦ elim (validate_options param definition name fields) [
          | err e ↦ err e
          | ok rest ↦ ok ((key, value') ∷ rest)
        ]
      ]

  abbrev with_secrets :
      ProviderDefinition N → Environment → String → Fields N → Result StorageError (Fields N)
  with_secrets definition env name fields =
      if not definition.secrets
      then (if has_secrets env name then err (credentials_not_supported name) else ok fields)
      else apply_secrets env name fields

  abbrev text_of : Option (Value N) → String
  text_of (some (text value)) = value
  text_of _ = ""

  abbrev types_of : Option (Value N) → List String
  types_of (some (strings types)) = types
  types_of _ = []

  abbrev config_of :
      Parameter N → ProviderDefinition N → String → String → Fields N → ProviderConfig N
  config_of param definition name provider fields =
      let complete = param.defaults fields in
      record {
        name = name;
        provider = provider;
        schema_options = "";
        fields = complete;
        value_types =
            if definition.value_types then types_of (lookup value_type_option complete) else [];
        definition = definition;
      }

  unfoldable pub validate :
      Parameter N → Environment → String → Fields N → Result StorageError (ProviderConfig N)
  validate param env name fields =
      let provider = text_of (lookup "provider" fields) in
      elim (lookup provider param.providers) [
        | none ↦ err (unknown_provider name provider)
        | some definition ↦ elim (validate_options param definition name fields) [
          | err e ↦ err e
          | ok fields' ↦ elim (with_secrets definition env name fields') [
            | err e ↦ err e
            | ok fields'' ↦ ok (config_of param definition name provider fields'')
          ]
        ]
      ]

  unfoldable pub decode :
      (Text → Result OsError (Value N))
      → Parameter N
      → Environment
      → String
      → Result StorageError (ProviderConfig N)
  decode unmarshal param env name = elim (decode_object unmarshal (get env name)) [
    | err e ↦ err (in_provider name e)
    | ok fields ↦ validate param env name fields
  ]
