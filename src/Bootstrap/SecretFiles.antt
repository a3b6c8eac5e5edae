-- ===== src/Bootstrap/SecretFiles.antt =====
-- templates/entrypoints/internal/bootstrap/secret_files.go: a secret is taken from its variable or its file.
pub mod Alias
pub mod Resolved
use zabbix_docker.Base.{
  Char, String, ◌<>◌, refl, Bool, true, false, not, ◌&&◌, ◌||◌, none, some, List, [], ◌∷◌, map,
  if◌then◌else◌, ◌==◌, nat_eq, char_eq, string_eq, list_eq, Result, ok, err, Text, chars, of_text,
  is_code, trim_right,
}
use zabbix_docker.Base.Exec.{Exec, pure, raise, lift, ◌>>=◌, ◌>>◌, wrap_err}
use zabbix_docker.Base.Dict.{lookup, insert, erase}
use zabbix_docker.Base.Paths.{join_paths, is_abs, is_local, clean}
use zabbix_docker.Bootstrap.Environment.{Environment, get}
use zabbix_docker.Bootstrap.Os.{OsError, FileInfo, not_exist, other_error}
use zabbix_docker.Bootstrap.Managed.{ManagedError}
use zabbix_docker.Bootstrap.SecretRegistry.{FileSecretSpec, ValueSecretSpec, SecretAlias}

pub data SecretError : Type 0 where
  different_values : SecretAlias → SecretError
  both_set : String → String → SecretError
  write_failed : String → ManagedError → SecretError
  remove_failed : ManagedError → SecretError
  escapes : String → String → SecretError
  not_found : String → String → List String → SecretError
  in_both : String → String → String → SecretError
  access_failed : String → OsError → SecretError
  read_failed : String → String → OsError → SecretError
  resolves_outside : String → String → SecretError

-- The directories of the platform: `externalSecretsRoot`, `internalSecretsRoot`, `dockerSecretsRoot`.
pub record SecretRoots : Type 0 where
  pub external : String
  pub internal : String
  pub docker : String

-- The file system, in the state `W`: `os.Stat`, `filepath.EvalSymlinks`, `filepath.Abs`, `filepath.Rel`,
-- `os.ReadFile`, and the writing and the removal of a managed secret.
pub record SecretFiles (W : Type 0) : Type 0 where
  pub stat : String → Exec W OsError FileInfo
  pub eval_symlinks : String → Exec W OsError String
  pub abs : String → Exec W OsError String
  pub rel : String → String → Result OsError String
  pub read_file : String → Exec W OsError Text
  pub write_secret : String → Text → Exec W ManagedError (Unit {0})
  pub remove_secret : String → Exec W ManagedError (Unit {0})

-- `filepath.Join`
abbrev pub join_strings : List String → String
join_strings parts = of_text (join_paths (map chars parts))

unfoldable pub normalize_secret_alias : SecretAlias → Environment → Result SecretError Environment
normalize_secret_alias alias env =
    let legacy = get env alias.legacy in
    let canonical = get env alias.canonical in
    if legacy == ""
    then ok (erase alias.legacy env)
    else if not (canonical == "")
    then (if not (legacy == canonical)
        then err (different_values alias)
        else ok (erase alias.legacy env))
    else ok (erase alias.legacy (insert alias.canonical legacy env))

abbrev remove_empty : String → Environment → Environment
remove_empty name env = elim (lookup name env) [
  | none ↦ env
  | some value ↦ if value == "" then erase name env else env
]

unfoldable pub normalize_empty_files : List FileSecretSpec → Environment → Environment
normalize_empty_files [] env = env
normalize_empty_files (spec ∷ specs) env =
    normalize_empty_files specs (remove_empty spec.file (remove_empty spec.inline env))

unfoldable pub normalize_empty_values : List ValueSecretSpec → Environment → Environment
normalize_empty_values [] env = env
normalize_empty_values (spec ∷ specs) env =
    normalize_empty_values specs (remove_empty (spec.name <> "_FILE") (remove_empty spec.name env))

unfoldable pub normalize_empty_secret_sources :
    List FileSecretSpec → List ValueSecretSpec → Environment → Environment
normalize_empty_secret_sources files values env =
    normalize_empty_values values (normalize_empty_files files env)

-- `r`, or the value that stands for the error `os.ErrNotExist`.
abbrev or_not_exist : {W A : Type 0} → Result OsError A → Exec W OsError A → Exec W OsError A
or_not_exist (err not_exist) other w = other w
or_not_exist r other w = (r, w)

module _ {W : Type 0} (roots : SecretRoots) (os : SecretFiles W) where
  abbrev resolved_base : String → Exec W OsError String
  resolved_base base w = let (r, w') = os.eval_symlinks base w in or_not_exist r (os.abs base) w'

  abbrev is_inside : String → String → Result OsError String → Result SecretError Bool
  is_inside base candidate (err _) = err (resolves_outside candidate base)
  is_inside base candidate (ok relative) =
      if not (is_local (chars relative)) then err (resolves_outside candidate base) else ok true

  abbrev check_inside : String → String → Exec W SecretError Bool
  check_inside base candidate = wrap_err (access_failed base) (resolved_base base) >>= λ real_base.
      wrap_err (access_failed candidate) (os.eval_symlinks candidate) >>= λ real_candidate.
      lift (is_inside base candidate (os.rel real_base real_candidate))

  abbrev regular_file : String → String → Result OsError FileInfo → Exec W SecretError Bool
  regular_file base candidate (err not_exist) w = (ok false, w)
  regular_file base candidate (err e) w = (err (access_failed candidate e), w)
  regular_file base candidate (ok info) w =
      if not info.is_regular then (ok false, w) else check_inside base candidate w

  unfoldable pub regular_file_within : String → String → Exec W SecretError Bool
  regular_file_within base relative w =
      if not (is_local (chars relative))
      then (err (escapes base relative), w)
      else let candidate = join_strings (base ∷ relative ∷ []) in
        let (r, w') = os.stat candidate w in regular_file base candidate r w'

  abbrev choose_standard :
      String → String → String → String → Bool → Bool → Result SecretError String
  choose_standard variable path standard_path new_path standard_exists new_exists =
      if standard_exists
      then ok standard_path
      else if new_exists
      then ok new_path
      else err (not_found variable path (standard_path ∷ new_path ∷ []))

  abbrev choose_legacy : String → String → String → String → Bool → Bool → Result SecretError String
  choose_legacy variable path legacy_path new_path legacy_exists new_exists =
      if new_exists && legacy_exists
      then err (in_both variable new_path legacy_path)
      else if new_exists
      then ok new_path
      else if legacy_exists
      then ok legacy_path
      else if legacy_path == ""
      then err (not_found variable path (new_path ∷ []))
      else err (not_found variable path (new_path ∷ legacy_path ∷ []))

  unfoldable pub locate_relative :
      String → String → String → Bool → String → Exec W SecretError String
  locate_relative variable path category standard legacy_dir =
      let new_base = join_strings (roots.external ∷ category ∷ []) in
      let new_path = join_strings (new_base ∷ path ∷ []) in
      let legacy_path = if legacy_dir == "" then "" else join_strings (legacy_dir ∷ path ∷ []) in
      if standard
      then (regular_file_within roots.docker path >>= λ standard_exists.
          regular_file_within new_base path >>= λ new_exists. lift (
            choose_standard variable path (join_strings (roots.docker ∷ path ∷ [])) new_path
              standard_exists new_exists))
      else (regular_file_within new_base path >>= λ new_exists.
          (if legacy_path == "" then pure false else regular_file_within legacy_dir path)
          >>= λ legacy_exists.
              lift (choose_legacy variable path legacy_path new_path legacy_exists new_exists))

  unfoldable pub locate_secret :
      String → String → String → Bool → String → Exec W SecretError String
  locate_secret variable path category standard legacy_dir =
      if is_abs (chars path)
      then pure (of_text (clean (chars path)))
      else if not (is_local (chars path))
      then raise (escapes variable path)
      else locate_relative variable path category standard legacy_dir

  abbrev managed_path : FileSecretSpec → String
  managed_path spec = join_strings (roots.internal ∷ spec.category ∷ spec.file ∷ [])

  abbrev removed : FileSecretSpec → Environment → Exec W SecretError Environment
  removed spec env =
      wrap_err remove_failed (os.remove_secret (managed_path spec)) >> pure (erase spec.file env)

  -- The environment that is passed on is the one that the map holds when no error is returned.
  unfoldable pub resolve_file_secret : FileSecretSpec → Environment → Exec W SecretError Environment
  resolve_file_secret spec env =
      let inline = get env spec.inline in
      let path = get env spec.file in
      let env' = erase spec.inline env in
      if not spec.active
      then removed spec env'
      else if inline == "" && path == ""
      then removed spec env'
      else if not (inline == "") && not (path == "")
      then raise (both_set spec.inline spec.file)
      else if not (inline == "")
      then (wrap_err (write_failed spec.file) (os.write_secret (managed_path spec) (chars inline))
          >> pure (insert spec.file (managed_path spec) env'))
      else (locate_secret spec.file path spec.category spec.standard spec.legacy_dir >>= λ resolved.
          pure (insert spec.file resolved env'))

  abbrev is_line_end : Char → Bool
  is_line_end c = is_code b'\r' c || is_code b'\n' c

  unfoldable pub resolve_value_secret :
      ValueSecretSpec → Environment → Exec W SecretError Environment
  resolve_value_secret spec env =
      let file_name = spec.name <> "_FILE" in
      let value = get env spec.name in
      let path = get env file_name in
      if not spec.active
      then pure (erase file_name (erase spec.name env))
      else if not (value == "") && not (path == "")
      then raise (both_set spec.name file_name)
      else if path == ""
      then pure (erase file_name env)
      else (locate_secret file_name path spec.category true "" >>= λ resolved.
          wrap_err (read_failed file_name resolved) (os.read_file resolved) >>= λ data_.
          pure (erase file_name (insert spec.name (of_text (trim_right is_line_end data_)) env)))
