-- ===== src/Bootstrap/Managed/Stale.antt =====
-- `cleanupStaleProviderSecrets` of templates/entrypoints/internal/bootstrap/secret_files.go.
use zabbix_docker.Base.{
  String, ◌<>◌, false, not, ◌||◌, none, some, List, [], ◌∷◌, if◌then◌else◌, ◌==◌, nat_eq, char_eq,
  string_eq, list_eq, Result, ok, err, is_empty, chars, of_text, cut_prefix,
}
use zabbix_docker.Base.Exec.{Exec, pure, raise, ◌>>=◌, ◌>>◌, wrap_err}
use zabbix_docker.Bootstrap.Os.{OsError, not_exist, other_error}
use zabbix_docker.Bootstrap.ProviderSecrets.{
  ProviderSecretDefinition, is_file_kind, provider_secret_definitions,
}
use zabbix_docker.Bootstrap.SecretRegistry.{
  SecretComponent, SecretCommand, service, init_db, init_history, init_telemetry, is_server,
  is_proxy, is_web,
}
use zabbix_docker.Bootstrap.Managed.{
  ManagedError, DirEntry, ManagedOps, join_strings, read_stale_failed, remove_stale_failed,
  read_providers_failed, open_providers_failed, Managed, on_world, open_managed, with_root,
  remove_secret_relative, read_and_close,
}

-- The families of providers whose secrets a command renews.
unfoldable pub stale_families : SecretComponent → SecretCommand → List String
stale_families component init_history = "history" ∷ []
stale_families component init_telemetry = "telemetry" ∷ []
stale_families component init_db = []
stale_families component service =
    if is_server component || is_web component
    then "history" ∷ "telemetry" ∷ []
    else if is_proxy component
    then "telemetry" ∷ []
    else []

module _ {W Root File : Type 0} (ops : ManagedOps W Root File) (internal_root : String) where
  -- One provider of a family: the files of its secrets. `upper` is the family in upper case.
  unfoldable pub remove_provider_files :
      String
      → String
      → List ProviderSecretDefinition
      → Exec (Managed ops internal_root) ManagedError (Unit {0})
  remove_provider_files directory prefix [] = pure tt
  remove_provider_files directory prefix (secret ∷ secrets) =
      let rest = remove_provider_files directory prefix secrets in
      if not (is_file_kind secret.kind)
      then rest
      else (remove_secret_relative ops internal_root
            (join_strings (directory ∷ (prefix <> (secret.suffix <> "FILE")) ∷ []))
          >> rest)

  abbrev upper : String → String
  upper family = if family == "history" then "HISTORY" else "TELEMETRY"

  unfoldable pub remove_stale_entries :
      Root → String → List DirEntry → Exec (Managed ops internal_root) ManagedError (Unit {0})
  remove_stale_entries root ca_dir [] = pure tt
  remove_stale_entries root ca_dir (entry ∷ entries) =
      wrap_err (remove_stale_failed entry.name) (
        on_world ops internal_root
          (ops.root_remove_all root (join_strings (ca_dir ∷ entry.name ∷ []))))
      >> remove_stale_entries root ca_dir entries

  abbrev clean_ca_opened :
      Root → String → Result OsError File → Exec (Managed ops internal_root) ManagedError (Unit {0})
  clean_ca_opened root ca_dir (err not_exist) = pure tt
  clean_ca_opened root ca_dir (err (other_error e)) =
      raise (read_stale_failed ca_dir (other_error e))
  clean_ca_opened root ca_dir (ok file) =
      wrap_err (read_stale_failed ca_dir)
        (on_world ops internal_root (read_and_close ops internal_root file))
      >>= λ entries. remove_stale_entries root ca_dir entries

  unfoldable pub clean_ca_dir :
      Root → String → Exec (Managed ops internal_root) ManagedError (Unit {0})
  clean_ca_dir root ca_dir (w, r) =
      let (file, w') = ops.root_open root ca_dir w in clean_ca_opened root ca_dir file (w', r)

  unfoldable pub clean_provider :
      Root → String → DirEntry → Exec (Managed ops internal_root) ManagedError (Unit {0})
  clean_provider root family entry = elim (cut_prefix (chars entry.name) (chars (family <> "-"))) [
    | none ↦ pure tt
    | some index ↦
        let directory = join_strings ("providers" ∷ entry.name ∷ []) in
        if not entry.is_dir
        then pure tt
        else (remove_provider_files directory
              ("ZBX_" <> (upper family <> ("PROVIDER_" <> of_text index)))
              provider_secret_definitions
            >> clean_ca_dir root (join_strings (directory ∷ "ca" ∷ [])))
  ]

  unfoldable pub clean_providers :
      Root → String → List DirEntry → Exec (Managed ops internal_root) ManagedError (Unit {0})
  clean_providers root family [] = pure tt
  clean_providers root family (entry ∷ entries) =
      clean_provider root family entry >> clean_providers root family entries

  unfoldable pub clean_families :
      Root → List String → List DirEntry → Exec (Managed ops internal_root) ManagedError (Unit {0})
  clean_families root [] entries = pure tt
  clean_families root (family ∷ families) entries =
      clean_providers root family entries >> clean_families root families entries

  abbrev clean_opened :
      Root
      → List String
      → Result OsError File
      → Exec (Managed ops internal_root) ManagedError (Unit {0})
  clean_opened root families (err not_exist) = pure tt
  clean_opened root families (err (other_error e)) = raise (open_providers_failed (other_error e))
  clean_opened root families (ok file) =
      wrap_err read_providers_failed
        (on_world ops internal_root (read_and_close ops internal_root file))
      >>= λ entries. clean_families root families entries

  abbrev clean_root : List String → Root → Exec (Managed ops internal_root) ManagedError (Unit {0})
  clean_root families root (w, r) =
      let (file, w') = ops.root_open root "providers" w in clean_opened root families file (w', r)

  unfoldable pub cleanup_stale_provider_secrets :
      SecretComponent → SecretCommand → Exec (Managed ops internal_root) ManagedError (Unit {0})
  cleanup_stale_provider_secrets component command =
      let families = stale_families component command in
      if is_empty families
      then pure tt
      else (open_managed ops internal_root false >>= λ root.
          with_root ops internal_root root (clean_root families))
