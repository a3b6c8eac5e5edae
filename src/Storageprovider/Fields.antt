-- ===== src/Storageprovider/Fields.antt =====
-- templates/entrypoints/internal/storageprovider/json.go, and DecodeJSON of
-- templates/entrypoints/internal/bootstrap/json.go: the decoded JSON of a provider, and its credentials.
use zabbix_docker.Base.{
  ℕ, ◌+◌, code, String, ◌<>◌, Bool, true, false, not, ◌&&◌, ◌||◌, none, some, List, [], ◌∷◌,
  if◌then◌else◌, ◌==◌, nat_eq, char_eq, string_eq, list_eq, contains, Result, ok, err, map_err,
  is_empty, Text, chars, trim_space, is_some, has_prefix,
}
use zabbix_docker.Base.Dict.{Dict, lookup, insert, erase}
use zabbix_docker.Base.Replace.{replace_all}
use zabbix_docker.Bootstrap.Os.{OsError}
use zabbix_docker.Bootstrap.Environment.{Environment, get}
use zabbix_docker.Bootstrap.Database.{SettingsError, resolve_file}
use zabbix_docker.Bootstrap.ProviderSecrets.{
  ProviderSecretDefinition, is_file_kind, provider_secret_definitions,
}

-- What `json.Unmarshal` puts into an `any`, with `N` for float64; `strings` is the []string that takes the
-- place of the value types.
mutual
  pub data Value (N : Type 0) : Type 0 where
    null : Value N
    boolean : Bool → Value N
    number : N → Value N
    text : String → Value N
    array : Items N → Value N
    object : Members N → Value N
    strings : List String → Value N

  pub data Items (N : Type 0) : Type 0 where
    no_items : Items N
    item : Value N → Items N → Items N

  pub data Members (N : Type 0) : Type 0 where
    no_members : Members N
    member : String → Value N → Members N → Members N

abbrev pub Fields : Type 0 → Type 0
Fields N = Dict String (Value N)

pub data StorageError : Type 0 where
  invalid_json : OsError → StorageError
  invalid_provider : StorageError
  not_an_object : ℕ → StorageError
  combined_with_file : String → String → String → StorageError
  no_file_path : String → StorageError
  invalid_path_character : String → StorageError
  bad_path : String → SettingsError → StorageError
  line_break : String → StorageError
  no_option_value : String → StorageError
  no_value_types : StorageError
  no_type_name : StorageError
  no_matching_provider : String → StorageError
  index_error : String → StorageError
  not_supported : String → StorageError
  cannot_combine : String → StorageError
  one_provider_required : String → StorageError
  provider_required : String → StorageError
  unknown_provider : String → String → StorageError
  invalid_option : String → String → StorageError
  managed_option : String → String → StorageError
  reserved_option : String → String → StorageError
  credentials_not_supported : String → StorageError
  in_provider : String → StorageError → StorageError

-- A key that stands twice has its last value.
unfoldable pub fields_from : {N : Type 0} → Fields N → Members N → Fields N
fields_from fields no_members = fields
fields_from fields (member key value members) = fields_from (insert key value fields) members

abbrev fields_of : {N : Type 0} → Members N → Fields N
fields_of members = fields_from [] members

-- `unmarshal` is `json.Unmarshal`; single quotes are taken for double ones where the text is no JSON.
unfoldable pub decode_json :
    {N : Type 0} → (Text → Result OsError (Value N)) → String → Result StorageError (Value N)
decode_json unmarshal raw = elim (unmarshal (chars raw)) [
  | ok value ↦ ok value
  | err _ ↦ map_err invalid_json (unmarshal (replace_all b'\'' (chars "\"") (chars raw)))
]

unfoldable pub looks_like_json_object : String → Bool
looks_like_json_object raw = has_prefix (trim_space (chars raw)) (chars "{")

abbrev as_object : {N : Type 0} → Value N → Result StorageError (Fields N)
as_object (object members) = ok (fields_of members)
as_object _ = err invalid_provider

unfoldable pub decode_object :
    {N : Type 0} → (Text → Result OsError (Value N)) → String → Result StorageError (Fields N)
decode_object unmarshal raw = elim (decode_json unmarshal raw) [
  | err e ↦ err e
  | ok value ↦ as_object value
]

abbrev item_fields : {N : Type 0} → ℕ → Value N → Result StorageError (Fields N)
item_fields index (object members) = ok (fields_of members)
item_fields index _ = err (not_an_object index)

unfoldable pub list_of_items : {N : Type 0} → ℕ → Items N → Result StorageError (List (Fields N))
list_of_items index no_items = ok []
list_of_items index (item value items) = elim (item_fields index value) [
  | err e ↦ err e
  | ok fields ↦ elim (list_of_items (index + 1) items) [
    | err e ↦ err e
    | ok rest ↦ ok (fields ∷ rest)
  ]
]

abbrev as_list : {N : Type 0} → Value N → Result StorageError (List (Fields N))
as_list (object members) = ok (fields_of members ∷ [])
as_list (array items) = list_of_items 0 items
as_list _ = err invalid_provider

unfoldable pub decode_list :
    {N : Type 0}
    → (Text → Result OsError (Value N))
    → String
    → Result StorageError (List (Fields N))
decode_list unmarshal raw =
    if is_empty (trim_space (chars raw))
    then ok []
    else elim (decode_json unmarshal raw) [ err e ↦ err e | ok value ↦ as_list value ]

unfoldable pub secret_configured : Environment → String → Bool
secret_configured env name = is_some (lookup name env)

abbrev location_of : Environment → String → ProviderSecretDefinition → String
location_of env variable secret =
    if secret.managed_location then get env (variable <> "LOCATION") else ""

-- The credentials that a list of definitions finds; `hasSecrets` takes that of the package.
unfoldable pub has_any_secret : List ProviderSecretDefinition → Environment → String → Bool
has_any_secret [] env name = false
has_any_secret (secret ∷ secrets) env name =
    let variable = name <> secret.suffix in
    let rest = has_any_secret secrets env name in
    if not (is_file_kind secret.kind)
    then (if secret_configured env variable then true else rest)
    else if not (get env variable == "")
        || not (get env (variable <> "FILE") == "")
        || not (location_of env variable secret == "")
    then true
    else rest

unfoldable pub has_secrets : Environment → String → Bool
has_secrets env name = has_any_secret provider_secret_definitions env name

abbrev apply_file :
    {N : Type 0}
    → Environment
    → String
    → ProviderSecretDefinition
    → Fields N
    → Result StorageError (Fields N)
apply_file env name secret fields =
    let file_variable = name <> (secret.suffix <> "FILE") in
    let location = location_of env (name <> secret.suffix) secret in
    if get env file_variable == "" && location == ""
    then ok fields
    else if is_some (lookup secret.field fields)
    then err (combined_with_file name secret.field file_variable)
    else ok (
        insert secret.field
          (text (if secret.managed_location then location else get env file_variable)) fields)

abbrev apply_value :
    {N : Type 0} → Environment → String → ProviderSecretDefinition → Fields N → Fields N
apply_value env name secret fields = elim (lookup (name <> secret.suffix) env) [
  | none ↦ fields
  | some value ↦ insert secret.field (text value) fields
]

unfoldable pub apply_each :
    {N : Type 0}
    → List ProviderSecretDefinition
    → Environment
    → String
    → Fields N
    → Result StorageError (Fields N)
apply_each [] env name fields = ok fields
apply_each (secret ∷ secrets) env name fields =
    elim (if not (is_file_kind secret.kind)
      then ok (apply_value env name secret fields)
      else apply_file env name secret fields) [
        | err e ↦ err e
        | ok fields' ↦ apply_each secrets env name fields'
      ]

unfoldable pub apply_secrets :
    {N : Type 0} → Environment → String → Fields N → Result StorageError (Fields N)
apply_secrets env name fields = apply_each provider_secret_definitions env name fields

unfoldable pub delete_each : List ProviderSecretDefinition → String → Environment → Environment
delete_each [] name env = env
delete_each (secret ∷ secrets) name env =
    let variable = name <> secret.suffix in
    delete_each secrets name (
      if not (is_file_kind secret.kind)
      then erase (variable <> "_FILE") (erase variable env)
      else erase (variable <> "LOCATION") (erase (variable <> "FILE") (erase variable env)))

unfoldable pub delete_secrets : String → Environment → Environment
delete_secrets name env = delete_each provider_secret_definitions name env

-- `strings.ContainsAny`
unfoldable pub contains_any : List ℕ → Text → Bool
contains_any codes [] = false
contains_any codes (c ∷ s) = contains codes (code c) || contains_any codes s

abbrev checked_path : String → String → Result StorageError (Unit {0})
checked_path name field =
    if contains_any (b'\\' ∷ b'\r' ∷ b'\n' ∷ 0 ∷ []) (chars name)
    then err (invalid_path_character field)
    else elim (resolve_file (chars name) []) [ err e ↦ err (bad_path field e) | ok _ ↦ ok tt ]

unfoldable pub validate_file_path : {N : Type 0} → Value N → String → Result StorageError (Unit {0})
validate_file_path (text name) field =
    if name == "" then err (no_file_path field) else checked_path name field
validate_file_path _ field = err (no_file_path field)
