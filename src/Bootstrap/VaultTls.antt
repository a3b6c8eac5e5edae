-- ===== src/Bootstrap/VaultTls.antt =====
-- templates/entrypoints/internal/bootstrap/secret_files.go: the certificate and the key for Vault.
use zabbix_docker.Base.{
  String, Bool, false, not, List, [], ◌∷◌, if◌then◌else◌, ◌==◌, nat_eq, char_eq, string_eq, list_eq,
  Result, ok, err, Text, chars,
}
use zabbix_docker.Base.Dict.{insert}
use zabbix_docker.Base.Exec.{Exec, pure, raise, ◌>>=◌, ◌>>◌, wrap_err}
use zabbix_docker.Base.Paths.{is_local, clean}
use zabbix_docker.Bootstrap.Os.{OsError, not_exist, other_error}
use zabbix_docker.Bootstrap.Environment.{Environment, get}
use zabbix_docker.Bootstrap.Managed.{ManagedOps, write_secret, remove_tree}
use zabbix_docker.Bootstrap.SecretFiles.{SecretRoots, join_strings}
use zabbix_docker.Bootstrap.SecretDirs.{
  CaError, read_dir_failed, read_file_failed, generated_conflict, outside_location, of_variable,
  WorldFiles, State, world, generated, regular_within, tried,
}

-- A certificate or key for Vault: the variables of the file and of its directory, and the category.
pub record VaultTlsFile : Type 0 where
  pub file : String
  pub location : String
  pub category : String

abbrev pub vault_tls_files : List VaultTlsFile
vault_tls_files =
    record {
      file = "ZBX_VAULTTLSCERTFILE";
      location = "ZBX_SSLCERTLOCATION";
      category = "ssl/certs";
    }
    ∷ record {
      file = "ZBX_VAULTTLSKEYFILE";
      location = "ZBX_SSLKEYLOCATION";
      category = "ssl/keys";
    }
    ∷ []

-- `filepath.Rel` gives a path that stays inside.
abbrev is_within : Result OsError String → Bool
is_within (err e) = false
is_within (ok relative) = is_local (chars relative)

module _ {W Root File : Type 0} (ops : ManagedOps W Root File) (fs : WorldFiles W)
    (roots : SecretRoots) where
  unfoldable pub set_vault_tls_file_names :
      List VaultTlsFile → Environment → Result CaError Environment
  set_vault_tls_file_names [] env = ok env
  set_vault_tls_file_names (file ∷ files) env =
      let path = get env file.file in
      if path == ""
      then set_vault_tls_file_names files env
      else elim (fs.rel (get env file.location) path) [
        | err e ↦ err (outside_location file.file path (get env file.location))
        | ok relative ↦
            if not (is_local (chars relative))
            then err (outside_location file.file path (get env file.location))
            else set_vault_tls_file_names files (insert file.file relative env)
      ]

  -- The regular files of the directory are copied; none of them has the name of the generated one.
  unfoldable pub copy_vault_entries :
      String → String → String → List String → Exec (State ops fs roots) CaError (Unit {0})
  copy_vault_entries target source vault_file [] = pure tt
  copy_vault_entries target source vault_file (entry ∷ entries) =
      let path = join_strings (source ∷ entry ∷ []) in
      (if entry == vault_file
        then raise (
            generated_conflict (join_strings (target ∷ vault_file ∷ []))
              (join_strings (source ∷ vault_file ∷ [])))
        else regular_within ops fs roots source entry)
      >>= λ regular.
          (if not regular
            then pure tt
            else (wrap_err (read_file_failed path) (world ops fs roots (fs.read_file path))
                >>= λ data_.
                    generated ops fs roots
                      (write_secret ops roots.internal (join_strings (target ∷ entry ∷ [])) data_)))
          >> copy_vault_entries target source vault_file entries

  abbrev listed :
      String → Result OsError (List String) → Exec (State ops fs roots) CaError (List String)
  listed source (ok entries) = pure entries
  listed source (err not_exist) = pure []
  listed source (err (other_error e)) = raise (read_dir_failed source (other_error e))

  unfoldable pub prepare_vault_tls_directory :
      String → String → String → Text → Exec (State ops fs roots) CaError (Unit {0})
  prepare_vault_tls_directory target source vault_file data_ =
      generated ops fs roots (remove_tree ops roots.internal target)
      >> tried ops fs roots (fs.read_dir source)
      >>= λ names. listed source names >>= λ entries.
          copy_vault_entries target source vault_file entries
          >> generated ops fs roots
              (write_secret ops roots.internal (join_strings (target ∷ vault_file ∷ [])) data_)

  unfoldable pub prepare_vault_tls_file :
      VaultTlsFile → Environment → Exec (State ops fs roots) CaError Environment
  prepare_vault_tls_file file env =
      let path = get env file.file in
      let location = get env file.location in
      let target = join_strings (roots.internal ∷ file.category ∷ []) in
      if path == ""
      then (generated ops fs roots (remove_tree ops roots.internal target) >> pure env)
      else if is_within (fs.rel location path)
      then (if not (clean (chars location) == clean (chars target))
          then (generated ops fs roots (remove_tree ops roots.internal target) >> pure env)
          else pure env)
      else (wrap_err (read_file_failed path) (world ops fs roots (fs.read_file path)) >>= λ data_.
          wrap_err (of_variable file.file)
            (prepare_vault_tls_directory target location file.file data_)
          >> pure (
              insert file.location target
                (insert file.file (join_strings (target ∷ file.file ∷ [])) env)))

  unfoldable pub prepare_vault_tls_files :
      List VaultTlsFile → Environment → Exec (State ops fs roots) CaError Environment
  prepare_vault_tls_files [] env = pure env
  prepare_vault_tls_files (file ∷ files) env =
      prepare_vault_tls_file file env >>= λ env'. prepare_vault_tls_files files env'
