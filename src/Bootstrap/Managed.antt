-- ===== src/Bootstrap/Managed.antt =====
-- templates/entrypoints/internal/bootstrap/secret_files.go: the directory of generated secrets.
pub mod Stale
use zabbix_docker.Base.{
  ℕ, zero, suc, String, ◌<>◌, Bool, true, false, not, ◌||◌, Option, none, some, List, [], ◌∷◌, map,
  if◌then◌else◌, ◌==◌, nat_eq, char_eq, string_eq, list_eq, Result, ok, err, is_empty, Text, chars,
  of_text, cut_prefix,
}
use zabbix_docker.Base.Exec.{Exec, pure, raise, ◌>>=◌, ◌>>◌, wrap_err}
use zabbix_docker.Base.Paths.{join_paths, is_local}
use zabbix_docker.Bootstrap.Files.{deferred}
use zabbix_docker.Bootstrap.Os.{OsError, FileInfo, not_exist, other_error}
use zabbix_docker.Bootstrap.ProviderSecrets.{
  ProviderSecretDefinition, is_file_kind, provider_secret_definitions,
}
use zabbix_docker.Bootstrap.SecretRegistry.{
  SecretComponent, SecretCommand, service, init_db, init_history, init_telemetry, is_server,
  is_proxy, is_web,
}

pub data ManagedError : Type 0 where
  -- `writableSecretDirError`
  dir_failed : String → OsError → ManagedError
  not_real_directory : String → ManagedError
  escapes_root : String → ManagedError
  os_failed : OsError → ManagedError
  no_temporary_name : ManagedError
  temporary_failed : String → ManagedError → ManagedError
  remove_tree_failed : String → OsError → ManagedError
  remove_secret_failed : String → OsError → ManagedError
  open_providers_failed : OsError → ManagedError
  read_providers_failed : OsError → ManagedError
  read_stale_failed : String → OsError → ManagedError
  remove_stale_failed : String → OsError → ManagedError

-- An entry of a directory.
pub record DirEntry : Type 0 where
  pub name : String
  pub is_dir : Bool

-- The operations of `os`, `filepath` and `crypto/rand` on the directory of generated secrets. The operations
-- named `root_…` are the methods of `os.Root`, whose paths are relative to it; `token_name` is the
-- hexadecimal text of eight random bytes; `is_exist` is `errors.Is(err, os.ErrExist)`.
pub record ManagedOps (W Root File : Type 0) : Type 0 where
  pub mkdir_all : String → ℕ → Exec W OsError (Unit {0})
  pub lstat : String → Exec W OsError FileInfo
  pub open_root : String → Exec W OsError Root
  pub close_root : Root → W → W
  pub abs : String → Exec W OsError String
  pub rel : String → String → Result OsError String
  pub dir : String → String
  pub root_mkdir_all : Root → String → ℕ → Exec W OsError (Unit {0})
  pub root_chmod : Root → String → ℕ → Exec W OsError (Unit {0})
  pub root_remove_all : Root → String → Exec W OsError (Unit {0})
  pub root_remove : Root → String → Exec W OsError (Unit {0})
  pub root_rename : Root → String → String → Exec W OsError (Unit {0})
  pub root_open : Root → String → Exec W OsError File
  pub file_read_dir : File → Exec W OsError (List DirEntry)
  pub root_create : Root → String → ℕ → Exec W OsError File
  pub token_name : Exec W OsError String
  pub file_chmod : File → ℕ → Exec W OsError (Unit {0})
  pub file_write : File → Text → Exec W OsError (Unit {0})
  pub file_close : File → Exec W OsError (Unit {0})
  pub is_exist : OsError → Bool

-- `filepath.Join`
abbrev pub join_strings : List String → String
join_strings parts = of_text (join_paths (map chars parts))

-- What was opened, with the field `root` of `managedSecrets` set.
abbrev keep_root :
    {W Root : Type 0} → Result OsError Root × W → Result OsError (Option Root) × (W × Option Root)
keep_root (ok root, w) = (ok (some root), (w, some root))
keep_root (err e, w) = (err e, (w, none))

module _ {W Root File : Type 0} (ops : ManagedOps W Root File) (internal_root : String) where
  -- The state: the world, and the field `root` of `managedSecrets`.
  abbrev pub Managed : Type 0
  Managed = W × Option Root

  abbrev pub on_world : {E A : Type 0} → Exec W E A → Exec Managed E A
  on_world m (w, root) = let (r, w') = m w in (r, (w', root))

  abbrev in_dir : {A : Type 0} → String → Exec W OsError A → Exec Managed ManagedError A
  in_dir directory m = wrap_err (dir_failed directory) (on_world m)

  abbrev plainly : {A : Type 0} → Exec W OsError A → Exec Managed ManagedError A
  plainly m = wrap_err os_failed (on_world m)

  -- The directory itself, which must not be a symbolic link.
  abbrev open_real : Bool → Result OsError FileInfo → Exec Managed ManagedError (Option Root)
  open_real create (err not_exist) =
      if not create then pure none else raise (dir_failed internal_root not_exist)
  open_real create (err (other_error e)) = raise (dir_failed internal_root (other_error e))
  open_real create (ok info) =
      if info.is_symlink || not info.is_dir
      then raise (not_real_directory internal_root)
      else (λ ((w, root) : Managed).
          wrap_err (dir_failed internal_root)
            (λ (_ : Managed). keep_root (ops.open_root internal_root w)) (w, root))

  abbrev create_if : Bool → Exec Managed ManagedError (Unit {0})
  create_if create =
      if create then in_dir internal_root (ops.mkdir_all internal_root 448) else pure tt

  abbrev looked_at : Exec Managed ManagedError (Result OsError FileInfo)
  looked_at (w, root) = let (r, w') = ops.lstat internal_root w in (ok r, (w', root))

  -- `open`; no root is there when it does not exist and is not to be created.
  unfoldable pub open_managed : Bool → Exec Managed ManagedError (Option Root)
  open_managed create (w, some root) = (ok (some root), (w, some root))
  open_managed create (w, none) =
      (create_if create >> looked_at >>= λ info. open_real create info) (w, none)

  unfoldable pub close_managed : Managed → Managed
  close_managed (w, none) = (w, none)
  close_managed (w, some root) = (ops.close_root root w, none)

  abbrev local_path : String → Result OsError String → Exec Managed ManagedError String
  local_path path (err e) = raise (escapes_root path)
  local_path path (ok relative) =
      if not (is_local (chars relative)) then raise (escapes_root path) else pure relative

  unfoldable pub managed_relative_path : String → Exec Managed ManagedError String
  managed_relative_path path = plainly (ops.abs internal_root) >>= λ absolute_root.
      plainly (ops.abs path) >>= λ absolute_path.
      local_path path (ops.rel absolute_root absolute_path)

  -- What is done with the root, when there is one.
  abbrev pub with_root :
      Option Root
      → (Root → Exec Managed ManagedError (Unit {0}))
      → Exec Managed ManagedError (Unit {0})
  with_root none f = pure tt
  with_root (some root) f = f root

  abbrev made_or_next :
      Result OsError File
      → Exec Managed ManagedError (String × File)
      → String
      → Exec Managed ManagedError (String × File)
  made_or_next (ok file) next name = pure (name, file)
  made_or_next (err e) next name = if ops.is_exist e then next else raise (os_failed e)

  abbrev created : Root → String → Exec Managed ManagedError (Result OsError File)
  created root name (w, r) = let (file, w') = ops.root_create root name 384 w in (ok file, (w', r))

  -- The loop of `createManagedTemp`, with the number of tries that are left.
  unfoldable pub create_temp_from : ℕ → Root → String → Exec Managed ManagedError (String × File)
  create_temp_from zero root directory = raise no_temporary_name
  create_temp_from (suc tries) root directory =
      let next = create_temp_from tries root directory in
      plainly ops.token_name >>= λ token.
      let name = join_strings (directory ∷ (".secret-" <> token) ∷ []) in
      (created root name >>= λ file. made_or_next file next name)

  unfoldable pub create_managed_temp : Root → String → Exec Managed ManagedError (String × File)
  create_managed_temp root directory = create_temp_from 10 root directory

  -- The file is closed before an error of what is done to it is returned.
  abbrev closed_on_error :
      File → Exec Managed ManagedError (Unit {0}) → Exec Managed ManagedError (Unit {0})
  closed_on_error file m s =
      let (r, s') = m s in
      elim r [
        | ok _ ↦ (ok tt, s')
        | err e ↦ let (_, s'') = plainly (ops.file_close file) s' in (err e, s'')
      ]

  abbrev remove_quietly : Root → String → Managed → Managed
  remove_quietly root name (w, r) = let (_, w') = ops.root_remove root name w in (w', r)

  unfoldable pub fill_secret :
      Root → String → String → File → Text → Exec Managed ManagedError (Unit {0})
  fill_secret root relative name file data_ = deferred (remove_quietly root name) (
      closed_on_error file (plainly (ops.file_chmod file 384))
      >> closed_on_error file (plainly (ops.file_write file data_))
      >> plainly (ops.file_close file)
      >> plainly (ops.root_rename root name relative))

  unfoldable pub write_in_root : Root → String → Text → Exec Managed ManagedError (Unit {0})
  write_in_root root relative data_ =
      let directory = ops.dir relative in
      let shown = join_strings (internal_root ∷ directory ∷ []) in
      in_dir shown (ops.root_mkdir_all root directory 448)
      >> in_dir shown (ops.root_chmod root directory 448)
      >> wrap_err (temporary_failed shown) (create_managed_temp root directory)
      >>= λ ((name, file) : String × File). fill_secret root relative name file data_

  unfoldable pub write_secret : String → Text → Exec Managed ManagedError (Unit {0})
  write_secret path data_ = managed_relative_path path >>= λ relative.
      open_managed true >>= λ root. with_root root (λ r. write_in_root r relative data_)

  abbrev removed_or_absent : String → Result OsError (Unit {0}) → Result ManagedError (Unit {0})
  removed_or_absent relative (ok _) = ok tt
  removed_or_absent relative (err not_exist) = ok tt
  removed_or_absent relative (err (other_error e)) =
      err (remove_secret_failed relative (other_error e))

  abbrev remove_in_root : String → Root → Exec Managed ManagedError (Unit {0})
  remove_in_root relative root (w, r) =
      let (removed, w') = ops.root_remove root relative w in
      (removed_or_absent relative removed, (w', r))

  unfoldable pub remove_secret_relative : String → Exec Managed ManagedError (Unit {0})
  remove_secret_relative relative =
      open_managed false >>= λ root. with_root root (remove_in_root relative)

  unfoldable pub remove_secret : String → Exec Managed ManagedError (Unit {0})
  remove_secret path = managed_relative_path path >>= λ relative. remove_secret_relative relative

  unfoldable pub remove_tree : String → Exec Managed ManagedError (Unit {0})
  remove_tree path = managed_relative_path path >>= λ relative. open_managed false >>= λ root.
      with_root root
        (λ r. wrap_err (remove_tree_failed relative) (on_world (ops.root_remove_all r relative)))

  abbrev pub read_and_close : File → Exec W OsError (List DirEntry)
  read_and_close file w =
      let (entries, w') = ops.file_read_dir file w in
      let (_, w'') = ops.file_close file w' in (entries, w'')
