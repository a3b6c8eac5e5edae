-- ===== src/Bootstrap/SecretDirs.antt =====
-- templates/entrypoints/internal/bootstrap/secret_ca.go: the directories that secrets are looked for in.
use zabbix_docker.Base.{
  String, Bool, true, false, not, ◌&&◌, List, [], ◌∷◌, if◌then◌else◌, ◌==◌, nat_eq, char_eq,
  string_eq, list_eq, Result, ok, err, Text,
}
use zabbix_docker.Base.Dict.{insert}
use zabbix_docker.Base.Exec.{Exec, pure, raise, lift, ◌>>=◌, wrap_err}
use zabbix_docker.Bootstrap.Os.{OsError, FileInfo, not_exist, other_error}
use zabbix_docker.Bootstrap.Environment.{Environment, get}
use zabbix_docker.Bootstrap.Managed.{
  ManagedError, ManagedOps, Managed, on_world, write_secret, remove_secret,
}
use zabbix_docker.Bootstrap.SecretRegistry.ProviderPlan.{PlanError}
use zabbix_docker.Bootstrap.SecretFiles.{
  SecretError, SecretRoots, SecretFiles, join_strings, regular_file_within,
}

pub data CaError : Type 0 where
  secret_error : SecretError → CaError
  managed_error : ManagedError → CaError
  plan_error : PlanError → CaError
  read_dir_failed : String → OsError → CaError
  both_contain_files : String → String → String → CaError
  read_managed_failed : String → OsError → CaError
  clear_failed : String → OsError → CaError
  supplied_twice : String → String → String → CaError
  read_file_failed : String → OsError → CaError
  rehash_failed : String → OsError → CaError
  generated_conflict : String → String → CaError
  outside_location : String → String → String → CaError
  of_variable : String → CaError → CaError

-- The operations of `os` and `filepath` outside the directory of generated secrets, and the call of the
-- program that names certificates by their hashes.
pub record WorldFiles (W : Type 0) : Type 0 where
  pub stat : String → Exec W OsError FileInfo
  pub eval_symlinks : String → Exec W OsError String
  pub abs : String → Exec W OsError String
  pub rel : String → String → Result OsError String
  pub base : String → String
  pub read_file : String → Exec W OsError Text
  pub read_dir : String → Exec W OsError (List String)
  pub rehash_directory : String → Exec W OsError (Unit {0})

module _ {W Root File : Type 0} (ops : ManagedOps W Root File) (fs : WorldFiles W)
    (roots : SecretRoots) where
  abbrev pub State : Type 0
  State = Managed ops roots.internal

  abbrev pub world : {E A : Type 0} → Exec W E A → Exec State E A
  world m = on_world ops roots.internal m

  abbrev pub generated : {A : Type 0} → Exec State ManagedError A → Exec State CaError A
  generated m = wrap_err managed_error m

  -- What the resolution of secrets uses.
  abbrev pub secret_files : SecretFiles State
  secret_files = record {
    stat = λ path. world (fs.stat path);
    eval_symlinks = λ path. world (fs.eval_symlinks path);
    abs = λ path. world (fs.abs path);
    rel = fs.rel;
    read_file = λ path. world (fs.read_file path);
    write_secret = write_secret ops roots.internal;
    remove_secret = remove_secret ops roots.internal;
  }

  abbrev pub regular_within : String → String → Exec State CaError Bool
  regular_within base relative =
      wrap_err secret_error (regular_file_within roots secret_files base relative)

  unfoldable pub has_regular_file : String → List String → Exec State CaError Bool
  has_regular_file path [] = pure false
  has_regular_file path (name ∷ names) = regular_within path name >>= λ regular.
      (if regular then pure true else has_regular_file path names)

  abbrev listing_has_files : String → Result OsError (List String) → Exec State CaError Bool
  listing_has_files path (err not_exist) = pure false
  listing_has_files path (err (other_error e)) = raise (read_dir_failed path (other_error e))
  listing_has_files path (ok names) = has_regular_file path names

  -- A call whose error is looked at.
  abbrev pub tried : {A : Type 0} → Exec W OsError A → Exec State CaError (Result OsError A)
  tried m (w, root) = let (r, w') = m w in (ok r, (w', root))

  unfoldable pub directory_has_files : String → Exec State CaError Bool
  directory_has_files path = tried (fs.read_dir path) >>= λ names. listing_has_files path names

  abbrev choose_directory : String → String → String → Bool → Bool → Result CaError String
  choose_directory name current legacy current_used legacy_used =
      if current_used && legacy_used
      then err (both_contain_files name current legacy)
      else if current_used
      then ok current
      else if legacy_used
      then ok legacy
      else ok current

  unfoldable pub resolve_secret_directory : String → String → String → Exec State CaError String
  resolve_secret_directory name current legacy = directory_has_files current >>= λ current_used.
      (if not (legacy == "") then directory_has_files legacy else pure false) >>= λ legacy_used.
      lift (choose_directory name current legacy current_used legacy_used)

  abbrev resolve_shared : String → String → String → Environment → Exec State CaError Environment
  resolve_shared name category legacy env =
      resolve_secret_directory name (join_strings (roots.external ∷ category ∷ [])) legacy
      >>= λ resolved. pure (if not (resolved == "") then insert name resolved env else env)

  unfoldable pub resolve_shared_tls_directories : Environment → Exec State CaError Environment
  resolve_shared_tls_directories env =
      let home = get env "ZABBIX_USER_HOME_DIR" in
      resolve_shared "ZBX_SSLCERTLOCATION" "ssl/certs" (join_strings (home ∷ "ssl" ∷ "certs" ∷ []))
        env
      >>= λ env'.
          resolve_shared "ZBX_SSLKEYLOCATION" "ssl/keys" (join_strings (home ∷ "ssl" ∷ "keys" ∷ []))
            env'
