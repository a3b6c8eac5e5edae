-- ===== src/Bootstrap/SecretRegistry/ProviderPlan.antt =====
-- `providerSecretPlan` and `secretPlan`: the secrets of the storage providers that the environment names.
use zabbix_docker.Base.{
  String, ◌<>◌, Bool, true, false, not, ◌&&◌, ◌||◌, Option, none, some, List, [], ◌∷◌, ◌++◌,
  starts_with, if◌then◌else◌, ◌==◌, nat_eq, char_eq, string_eq, list_eq, Result, ok, err, ◌>>=◌,
  select, Text, chars, of_text, cut_prefix, is_some, cut,
}
use zabbix_docker.Base.Dict.{Dict, keys, insert, lookup}
use zabbix_docker.Base.Sort.{sort}
use zabbix_docker.Bootstrap.Environment.{Environment, get, string_less, or_empty}
use zabbix_docker.Bootstrap.Indexed.{parse_indexed_number}
use zabbix_docker.Bootstrap.ProviderSecrets.{
  ProviderSecretDefinition, provider_secret_definitions, is_file_kind,
  configured_provider_secret_source, provider_location_suffixes, provider_file_secret_suffixes,
}
use zabbix_docker.Bootstrap.SecretRegistry.ComponentPlan.{component_plan, needs_providers}
use zabbix_docker.Bootstrap.SecretRegistry.{
  SecretComponent, SecretCommand, init_history, init_telemetry, FileSecretSpec, ValueSecretSpec,
  SecretPlan, is_server, is_web, has_provider_secret_suffix,
}

pub data PlanError : Type 0 where
  invalid_indexed_variable : String → PlanError
  source_without_provider : String → String → PlanError

abbrev pub history_prefix : String
history_prefix = "ZBX_HISTORYPROVIDER_"

abbrev pub telemetry_prefix : String
telemetry_prefix = "ZBX_TELEMETRYPROVIDER_"

-- One round of the inner loop: the provider that the variable belongs to is noted with its category.
abbrev is_passed_over : SecretComponent → Bool → String → Bool
is_passed_over component history name =
    has_provider_secret_suffix name provider_location_suffixes
    || (history && not (is_server component || is_web component))
    || (history
        && not (is_server component)
        && has_provider_secret_suffix name provider_file_secret_suffixes)

-- The index in front of the next `_`, and whether there is one.
abbrev index_of : Text → String × Bool
index_of rest = elim (cut b'_' rest) [
  | none ↦ (of_text rest, false)
  | some (index, _) ↦ (of_text index, true)
]

abbrev note_base : String → Bool → String → String → Dict String String → Dict String String
note_base prefix history name index bases =
    insert (prefix <> index)
      ("providers/" <> (if history then "history" else "telemetry") <> "-" <> index) bases

unfoldable pub note_provider :
    SecretComponent
    → String
    → Bool
    → String
    → Dict String String
    → Result PlanError (Dict String String)
note_provider component prefix history name bases = elim (cut_prefix (chars name) (chars prefix)) [
  | none ↦ ok bases
  | some rest ↦
      let (index, found) = index_of rest in
      if is_passed_over component history name
      then ok bases
      else if index == ""
      then ok bases
      else if not (is_some (parse_indexed_number index))
      then err (invalid_indexed_variable name)
      else if found || name == prefix <> index
      then ok (note_base prefix history name index bases)
      else ok bases
]

unfoldable pub provider_bases :
    SecretComponent → List String → Dict String String → Result PlanError (Dict String String)
provider_bases component [] bases = ok bases
provider_bases component (name ∷ names) bases =
    note_provider component history_prefix true name bases >>= λ bases_1.
    note_provider component telemetry_prefix false name bases_1 >>= λ bases_2.
    provider_bases component names bases_2

abbrev is_wanted : SecretCommand → String → Bool
is_wanted init_history base = starts_with base history_prefix
is_wanted init_telemetry base = starts_with base telemetry_prefix
is_wanted _ base = true

abbrev provider_file : String → String → Bool → ProviderSecretDefinition → List FileSecretSpec
provider_file base category active secret =
    if is_file_kind secret.kind
    then record {
      inline = base <> secret.suffix;
      file = base <> secret.suffix <> "FILE";
      category = category;
      legacy_dir = "";
      standard = false;
      active = active;
    }
      ∷ []
    else []

abbrev provider_value : String → String → Bool → ProviderSecretDefinition → List ValueSecretSpec
provider_value base category active secret =
    if is_file_kind secret.kind
    then []
    else record { name = base <> secret.suffix; category = category; active = active } ∷ []

unfoldable pub concat_map : {A B : Type 0} → (A → List B) → List A → List B
concat_map f [] = []
concat_map f (x ∷ xs) = f x ++ concat_map f xs

abbrev without_files : SecretComponent → String → Bool
without_files component base = starts_with base history_prefix && not (is_server component)

-- The secrets of one provider.
abbrev provider_specs :
    Environment
    → Dict String String
    → SecretComponent
    → String
    → Result PlanError (List FileSecretSpec × List ValueSecretSpec)
provider_specs env bases component base =
    let category = or_empty (lookup base bases) in
    let active = not (get env base == "") in
    let source = configured_provider_secret_source env base (not (without_files component base)) in
    if not active && not (source == "")
    then err (source_without_provider source base)
    else ok (
      if without_files component base
          then []
          else concat_map (provider_file base category active) provider_secret_definitions,
      concat_map (provider_value base category active) provider_secret_definitions,
    )

unfoldable pub specs_of :
    Environment
    → Dict String String
    → SecretComponent
    → List String
    → Result PlanError (List FileSecretSpec × List ValueSecretSpec)
specs_of env bases component [] = ok ([], [])
specs_of env bases component (base ∷ more) =
    provider_specs env bases component base
    >>= λ ((files, values) : List FileSecretSpec × List ValueSecretSpec).
        specs_of env bases component more
        >>= λ ((files', values') : List FileSecretSpec × List ValueSecretSpec).
            ok (files ++ files', values ++ values')

unfoldable pub provider_secret_plan :
    Environment
    → SecretComponent
    → SecretCommand
    → Result PlanError (List FileSecretSpec × List ValueSecretSpec)
provider_secret_plan env component command = provider_bases component (keys env) [] >>= λ bases.
    specs_of env bases component (sort string_less (select (is_wanted command) (keys bases)))

-- `vault_path` is what the JSON of a provider holds in the field of that name, `none` where the text is no
-- JSON object or the field is no string.
unfoldable pub telemetry_provider_uses_vault : (String → Option String) → Environment → Bool
telemetry_provider_uses_vault vault_path [] = false
telemetry_provider_uses_vault vault_path ((name, value) ∷ env) =
    let rest = telemetry_provider_uses_vault vault_path env in
    elim (cut_prefix (chars name) (chars telemetry_prefix)) [
      | none ↦ rest
      | some index ↦
          if not (is_some (parse_indexed_number (of_text index)))
          then rest
          else elim (vault_path value) [
            | none ↦ rest
            | some path ↦ if not (path == "") then true else rest
          ]
    ]

abbrev with_providers : SecretPlan → List FileSecretSpec → List ValueSecretSpec → SecretPlan
with_providers plan files values = record {
  files = plan.files ++ files;
  values = plan.values ++ values;
  aliases = plan.aliases;
}

unfoldable pub secret_plan :
    (String → Option String)
    → Environment
    → SecretComponent
    → SecretCommand
    → Result PlanError SecretPlan
secret_plan vault_path env component command =
    let plan = component_plan (telemetry_provider_uses_vault vault_path) env component command in
    if needs_providers component command
    then (provider_secret_plan env component command
        >>= λ ((files, values) : List FileSecretSpec × List ValueSecretSpec).
            ok (with_providers plan files values))
    else ok plan
