-- ===== src/Bootstrap/SecretCa.antt =====
-- templates/entrypoints/internal/bootstrap/secret_ca.go: the directories of certificates.
mod CopyOne
pub mod Copied
use zabbix_docker.Base.{
  String, refl, true, not, ◌&&◌, ◌||◌, Option, none, some, List, [], ◌∷◌, ◌++◌, if◌then◌else◌, ◌==◌,
  nat_eq, char_eq, string_eq, list_eq, Result, ok, err, chars, of_text, has_suffix, trim_suffix,
}
use zabbix_docker.Base.Dict.{Dict, lookup, insert, erase}
use zabbix_docker.Base.Exec.{Exec, pure, raise, lift, ◌>>=◌, ◌>>◌, wrap_err}
use zabbix_docker.Base.Paths.{join_paths}
use zabbix_docker.Bootstrap.Os.{OsError, FileInfo, not_exist, other_error}
use zabbix_docker.Bootstrap.Environment.{Environment, get}
use zabbix_docker.Bootstrap.Managed.{
  ManagedError, DirEntry, ManagedOps, dir_failed, Managed, on_world, open_managed,
  managed_relative_path, write_secret, remove_secret, remove_tree, read_and_close,
}
use zabbix_docker.Bootstrap.SecretRegistry.{FileSecretSpec}
use zabbix_docker.Bootstrap.SecretRegistry.ProviderPlan.{PlanError}
use zabbix_docker.Bootstrap.SecretFiles.{
  SecretError, SecretRoots, SecretFiles, join_strings, regular_file_within,
}
use zabbix_docker.Bootstrap.SecretDirs.{
  CaError, read_dir_failed, read_managed_failed, clear_failed, supplied_twice, read_file_failed,
  rehash_failed, of_variable, WorldFiles, State, world, generated, secret_files, regular_within,
  tried, directory_has_files, resolve_secret_directory,
}

-- The CA files that were copied, by name.
abbrev pub Names : Type 0
Names = Dict String String

module _ {W Root File : Type 0} (ops : ManagedOps W Root File) (fs : WorldFiles W)
    (roots : SecretRoots) where
  unfoldable pub remove_entries :
      Root → String → String → List DirEntry → Exec (State ops fs roots) CaError (Unit {0})
  remove_entries root relative target [] = pure tt
  remove_entries root relative target (entry ∷ entries) =
      wrap_err (clear_failed (join_strings (target ∷ entry.name ∷ [])))
        (world ops fs roots (ops.root_remove_all root (join_strings (relative ∷ entry.name ∷ []))))
      >> remove_entries root relative target entries

  abbrev prepare_entry :
      {A : Type 0} → String → Exec W OsError A → Exec (State ops fs roots) CaError A
  prepare_entry target m =
      generated ops fs roots (wrap_err (dir_failed target) (world ops fs roots m))

  -- The directory is created, and emptied.
  unfoldable pub empty_directory :
      Root → String → String → Exec (State ops fs roots) CaError (Unit {0})
  empty_directory root relative target =
      prepare_entry target (ops.root_mkdir_all root relative 448)
      >> prepare_entry target (ops.root_chmod root relative 448)
      >> wrap_err (read_managed_failed target) (world ops fs roots (ops.root_open root relative))
      >>= λ directory.
          wrap_err (read_managed_failed target)
            (world ops fs roots (read_and_close ops roots.internal directory))
          >>= λ entries. remove_entries root relative target entries

  unfoldable pub copy_one : String → String → Names → Exec (State ops fs roots) CaError Names
  copy_one target source names =
      if source == ""
      then pure names
      else let name = fs.base source in
        elim (lookup name names) [
          | some previous ↦ raise (supplied_twice name previous source)
          | none ↦
              wrap_err (read_file_failed source) (world ops fs roots (fs.read_file source))
              >>= λ data_.
                  generated ops fs roots
                    (write_secret ops roots.internal (join_strings (target ∷ name ∷ [])) data_)
                  >> pure (insert name source names)
        ]

  unfoldable pub copy_files : String → List String → Names → Exec (State ops fs roots) CaError Names
  copy_files target [] names = pure names
  copy_files target (path ∷ paths) names =
      copy_one target path names >>= λ names'. copy_files target paths names'

  unfoldable pub copy_entries :
      String → String → List String → Names → Exec (State ops fs roots) CaError Names
  copy_entries target source_dir [] names = pure names
  copy_entries target source_dir (entry ∷ entries) names =
      regular_within ops fs roots source_dir entry >>= λ regular.
      (if regular
        then copy_one target (join_strings (source_dir ∷ entry ∷ [])) names
        else pure names)
      >>= λ names'. copy_entries target source_dir entries names'

  abbrev copy_listing :
      String
      → String
      → Names
      → Result OsError (List String)
      → Exec (State ops fs roots) CaError Names
  copy_listing target source_dir names (err not_exist) = pure names
  copy_listing target source_dir names (err (other_error e)) =
      raise (read_dir_failed source_dir (other_error e))
  copy_listing target source_dir names (ok entries) = copy_entries target source_dir entries names

  unfoldable pub copy_sources :
      String → List String → Names → Exec (State ops fs roots) CaError Names
  copy_sources target [] names = pure names
  copy_sources target (source_dir ∷ sources) names =
      (if source_dir == ""
        then pure names
        else (tried ops fs roots (fs.read_dir source_dir) >>= λ entries.
            copy_listing target source_dir names entries))
      >>= λ names'. copy_sources target sources names'

  abbrev emptied : String → String → Option Root → Exec (State ops fs roots) CaError (Unit {0})
  emptied relative target none = pure tt
  emptied relative target (some root) = empty_directory root relative target

  unfoldable pub prepare_managed_ca_dir :
      String → List String → List String → Exec (State ops fs roots) CaError (Unit {0})
  prepare_managed_ca_dir target sources files =
      generated ops fs roots (managed_relative_path ops roots.internal target) >>= λ relative.
      generated ops fs roots (open_managed ops roots.internal true) >>= λ root.
      emptied relative target root >> copy_sources target sources [] >>= λ names.
      copy_files target files names >>= λ _.
      wrap_err (rehash_failed target) (world ops fs roots (fs.rehash_directory target))

  unfoldable pub resolve_global_ca : Environment → Exec (State ops fs roots) CaError Environment
  resolve_global_ca env =
      let target = join_strings (roots.internal ∷ "ssl" ∷ "ca" ∷ []) in
      if not (get env "ZBX_SSLCALOCATION" == "")
      then pure env
      else (resolve_secret_directory ops fs roots "ZBX_SSLCALOCATION"
            (join_strings (roots.external ∷ "ssl" ∷ "ca" ∷ []))
            (join_strings (get env "ZABBIX_USER_HOME_DIR" ∷ "ssl" ∷ "ssl_ca" ∷ []))
          >>= λ source. directory_has_files ops fs roots source >>= λ used.
              (if not used
                then (generated ops fs roots (remove_tree ops roots.internal target)
                    >> pure (erase "ZBX_SSLCALOCATION" env))
                else (prepare_managed_ca_dir target (source ∷ []) []
                    >> pure (insert "ZBX_SSLCALOCATION" target env))))

  abbrev extra_file : Environment → List String
  extra_file env =
      if not (get env "ZBX_APM_CAFILE" == "") then get env "ZBX_APM_CAFILE" ∷ [] else []

  unfoldable pub resolve_web_apm_ca : Environment → Exec (State ops fs roots) CaError Environment
  resolve_web_apm_ca env =
      let current = join_strings (roots.external ∷ "apm" ∷ "ca" ∷ []) in
      let target = join_strings (roots.internal ∷ "apm" ∷ "ca" ∷ []) in
      if not (get env "ZBX_APM_CA_LOCATION" == "")
      then pure env
      else (directory_has_files ops fs roots current >>= λ used.
          (if not used && get env "ZBX_APM_CAFILE" == ""
            then (generated ops fs roots (remove_tree ops roots.internal target)
                >> pure (erase "ZBX_APM_CA_LOCATION" env))
            else (prepare_managed_ca_dir target (current ∷ []) (extra_file env)
                >> pure (insert "ZBX_APM_CA_LOCATION" target env))))

  abbrev location_name : String → String
  location_name file = of_text (trim_suffix (chars file) (chars "FILE") ++ chars "LOCATION")

  abbrev resolve_provider_ca :
      FileSecretSpec → Environment → Exec (State ops fs roots) CaError Environment
  resolve_provider_ca spec env =
      let target = join_strings (roots.internal ∷ spec.category ∷ "ca" ∷ []) in
      if not (has_suffix (chars spec.inline) (chars "_SSL_CA")) || get env spec.file == ""
      then pure env
      else (wrap_err (of_variable spec.file)
            (prepare_managed_ca_dir target [] (get env spec.file ∷ []))
          >> pure (insert (location_name spec.file) target env))

  unfoldable pub resolve_provider_cas :
      List FileSecretSpec → Environment → Exec (State ops fs roots) CaError Environment
  resolve_provider_cas [] env = pure env
  resolve_provider_cas (spec ∷ specs) env =
      resolve_provider_ca spec env >>= λ env'. resolve_provider_cas specs env'
