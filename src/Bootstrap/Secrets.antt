-- ===== src/Bootstrap/Secrets.antt =====
-- templates/entrypoints/internal/bootstrap/secrets.go, and the vault certificates of secret_files.go: the
-- secrets of one component and command, from the plan to the environment.
pub mod Hidden
use zabbix_docker.Base.{
  String, refl, Bool, false, not, ◌&&◌, ◌||◌, Option, none, some, List, [], ◌∷◌, if◌then◌else◌,
  ◌==◌, nat_eq, char_eq, string_eq, list_eq, Result, ok, err, is_empty, is_some,
}
use zabbix_docker.Base.Dict.{lookup, insert, erase}
use zabbix_docker.Base.Exec.{Exec, pure, raise, lift, ◌>>=◌, ◌>>◌, wrap_err}
use zabbix_docker.Base.Paths.{join_paths, is_local, clean}
use zabbix_docker.Bootstrap.Os.{OsError, not_exist, other_error}
use zabbix_docker.Bootstrap.Environment.{Environment, get}
use zabbix_docker.Bootstrap.Files.{deferred}
use zabbix_docker.Bootstrap.Command.{service_args}
use zabbix_docker.Bootstrap.Managed.Stale.{cleanup_stale_provider_secrets}
use zabbix_docker.Bootstrap.Managed.{ManagedOps, Managed, write_secret, remove_tree, close_managed}
use zabbix_docker.Bootstrap.ProviderSecrets.{
  provider_secret_suffixes, provider_file_secret_suffixes, provider_location_suffixes,
}
use zabbix_docker.Bootstrap.SecretRegistry.{
  SecretComponent, SecretCommand, service, init_db, init_history, init_telemetry, FileSecretSpec,
  ValueSecretSpec, SecretAlias, SecretPlan, is_proxy, is_web, is_server_or_proxy,
  drop_provider_secret_sources,
}
use zabbix_docker.Bootstrap.SecretRegistry.ComponentPlan.{is_service}
use zabbix_docker.Bootstrap.SecretRegistry.ProviderPlan.{
  history_prefix, telemetry_prefix, secret_plan,
}
use zabbix_docker.Bootstrap.SecretFiles.{
  SecretRoots, SecretFiles, SecretError, join_strings, normalize_empty_secret_sources,
  normalize_secret_alias, resolve_file_secret, resolve_value_secret, locate_secret,
}
use zabbix_docker.Bootstrap.SecretDirs.{
  CaError, secret_error, plan_error, read_dir_failed, read_file_failed, generated_conflict,
  outside_location, of_variable, WorldFiles, State, world, generated, secret_files, regular_within,
  tried, resolve_shared_tls_directories,
}
use zabbix_docker.Bootstrap.SecretCa.{resolve_global_ca, resolve_web_apm_ca, resolve_provider_cas}
use zabbix_docker.Bootstrap.VaultTls.{vault_tls_files, prepare_vault_tls_files}

unfoldable pub drop_sources : SecretComponent → Environment → Environment
drop_sources component env =
    let located =
      if is_server_or_proxy component || is_web component
      then drop_provider_secret_sources telemetry_prefix provider_location_suffixes
          (drop_provider_secret_sources history_prefix provider_location_suffixes env)
      else env in
    let unproxied =
      if is_proxy component
      then drop_provider_secret_sources history_prefix provider_secret_suffixes located
      else located in
    if is_web component
    then drop_provider_secret_sources history_prefix provider_file_secret_suffixes unproxied
    else unproxied

unfoldable pub normalize_aliases : List SecretAlias → Environment → Result SecretError Environment
normalize_aliases [] env = ok env
normalize_aliases (alias ∷ aliases) env = elim (normalize_secret_alias alias env) [
  | err e ↦ err e
  | ok env' ↦ normalize_aliases aliases env'
]

-- The loops over the specs, for any file system.
module _ {W : Type 0} (roots : SecretRoots) (os : SecretFiles W) where
  unfoldable pub resolve_file_secrets :
      List FileSecretSpec → Environment → Exec W SecretError Environment
  resolve_file_secrets [] env = pure env
  resolve_file_secrets (spec ∷ specs) env =
      resolve_file_secret roots os spec env >>= λ env'. resolve_file_secrets specs env'

  unfoldable pub resolve_value_secrets :
      List ValueSecretSpec → Environment → Exec W SecretError Environment
  resolve_value_secrets [] env = pure env
  resolve_value_secrets (spec ∷ specs) env =
      resolve_value_secret roots os spec env >>= λ env'. resolve_value_secrets specs env'

  -- `ResolveExternalSecretFile`
  unfoldable pub resolve_external_secret_file : String → String → String → Exec W SecretError String
  resolve_external_secret_file variable path category =
      locate_secret roots os variable path category false ""

module _ {W Root File : Type 0} (ops : ManagedOps W Root File) (fs : WorldFiles W)
    (roots : SecretRoots) where
  abbrev with_vault : Environment → Exec (State ops fs roots) CaError Environment
  with_vault env =
      if not (get env "ZBX_VAULTDBPATH" == "") then resolve_global_ca ops fs roots env else pure env

  -- The directories of the server and the proxy.
  abbrev server_directories :
      SecretCommand → Environment → Exec (State ops fs roots) CaError Environment
  server_directories init_db env = with_vault env
  server_directories service env = resolve_shared_tls_directories ops fs roots env >>= λ env'.
      prepare_vault_tls_files ops fs roots vault_tls_files env' >>= λ env''.
      resolve_global_ca ops fs roots env''
  server_directories init_history env = resolve_shared_tls_directories ops fs roots env >>= λ env'.
      resolve_global_ca ops fs roots env'
  server_directories init_telemetry env =
      resolve_shared_tls_directories ops fs roots env >>= λ env'.
      resolve_global_ca ops fs roots env'

  unfoldable pub resolve_directories :
      SecretComponent
      → SecretCommand
      → List FileSecretSpec
      → Environment
      → Exec (State ops fs roots) CaError Environment
  resolve_directories component command files env =
      (if is_server_or_proxy component
        then server_directories command env
        else if is_web component && is_service command
        then with_vault env
        else pure env)
      >>= λ env'.
          (if is_service command && is_web component
            then resolve_web_apm_ca ops fs roots env'
            else pure env')
          >>= λ env''. resolve_provider_cas ops fs roots files env''

  -- What is done with a plan that is not empty.
  unfoldable pub apply_plan :
      SecretComponent
      → SecretCommand
      → SecretPlan
      → Environment
      → Exec (State ops fs roots) CaError Environment
  apply_plan component command plan env =
      wrap_err secret_error (
        lift (
          normalize_aliases plan.aliases
            (normalize_empty_secret_sources plan.files plan.values env)))
      >>= λ env'.
          wrap_err secret_error
            (resolve_file_secrets roots (secret_files ops fs roots) plan.files env')
          >>= λ env''.
              wrap_err secret_error
                (resolve_value_secrets roots (secret_files ops fs roots) plan.values env'')
              >>= λ env'''. resolve_directories component command plan.files env'''

  abbrev with_plan :
      SecretComponent
      → SecretCommand
      → SecretPlan
      → Environment
      → Exec (State ops fs roots) CaError Environment
  with_plan component command plan env =
      generated ops fs roots (cleanup_stale_provider_secrets ops roots.internal component command)
      >> (if is_empty plan.files && is_empty plan.values && is_empty plan.aliases
          then pure env
          else apply_plan component command plan env)

  -- `vault_path` is that of the plan. The directory of generated secrets is closed at the end.
  unfoldable pub resolve_secrets :
      (String → Option String)
      → SecretComponent
      → SecretCommand
      → Environment
      → Exec W CaError Environment
  resolve_secrets vault_path component command env w =
      elim (secret_plan vault_path env component command) [
        | err e ↦ (err (plan_error e), w)
        | ok plan ↦
            let (r, s) =
              deferred (close_managed ops roots.internal)
                (with_plan component command plan (drop_sources component env)) (w, none) in
            (r, s.0)
      ]

  -- An entrypoint that comes after the secrets. The arguments are none, or those of the binary.
  abbrev runs_service : String → List String → Bool
  runs_service binary args =
      if not (binary == "") then is_some (service_args args binary) else is_empty args

  unfoldable pub with_resolved_secrets :
      {E : Type 0}
      → (CaError → E)
      → (String → Option String)
      → SecretComponent
      → String
      → (Environment → List String → Exec W E (Unit {0}))
      → Environment
      → List String
      → Exec W E (Unit {0})
  with_resolved_secrets failed vault_path component binary next env args =
      if runs_service binary args
      then (wrap_err failed (resolve_secrets vault_path component service env) >>= λ env'.
          next env' args)
      else next env args

  -- `WithInitDBSecrets` and `withStorageInitSecrets`: `none` is the nil of a missing handler.
  unfoldable pub with_secrets :
      {E A : Type 0}
      → (CaError → E)
      → (String → Option String)
      → SecretComponent
      → SecretCommand
      → Option (Environment → Exec W E A)
      → Option (Environment → Exec W E A)
  with_secrets failed vault_path component command none = none
  with_secrets failed vault_path component command (some next) = some (λ env.
      wrap_err failed (resolve_secrets vault_path component command env) >>= λ env'. next env')
