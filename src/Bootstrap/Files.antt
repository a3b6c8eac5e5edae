-- ===== src/Bootstrap/Files.antt =====
-- templates/entrypoints/internal/bootstrap/files.go: files and symbolic links that are replaced.
pub mod Atomic
use zabbix_docker.Base.{
  ℕ, String, ◌<>◌, refl, Bool, true, false, not, [], ◌∷◌, if◌then◌else◌, ◌==◌, nat_eq, char_eq,
  string_eq, list_eq, Result, ok, err, select, Text, chars, has_prefix, split_on, join,
}
use zabbix_docker.Base.Exec.{Exec, pure, raise, lift, ◌>>=◌, ◌>>◌, wrap_err}
use zabbix_docker.Bootstrap.Os.{OsError, FileInfo, not_exist, other_error}

-- The operations of the `os` and `filepath` packages, over the state `W` of the file system. `stat_mode` is
-- `os.Stat` with the permission bits; an open temporary file goes by its name.
pub record FileOps (W : Type 0) : Type 0 where
  pub eval_symlinks : String → Exec W OsError String
  pub stat_mode : String → Exec W OsError ℕ
  pub stat : String → Exec W OsError FileInfo
  pub dir : String → String
  pub base : String → String
  pub create_temp : String → String → Exec W OsError String
  pub chmod : String → ℕ → Exec W OsError (Unit {0})
  pub write : String → Text → Exec W OsError (Unit {0})
  pub sync : String → Exec W OsError (Unit {0})
  pub close : String → Exec W OsError (Unit {0})
  pub rename : String → String → Exec W OsError (Unit {0})
  pub remove : String → Exec W OsError (Unit {0})
  pub read_file : String → Exec W OsError Text
  pub lstat : String → Exec W OsError FileInfo
  pub symlink : String → String → Exec W OsError (Unit {0})
  pub readlink : String → Exec W OsError String

-- `defer`: what is done after the body, whatever the body returned.
abbrev pub deferred : {W E A : Type 0} → (W → W) → Exec W E A → Exec W E A
deferred f m w = let (r, w') = m w in (r, f w')

-- `strings.Contains`
unfoldable pub contains_text : Text → Text → Bool
contains_text [] value = has_prefix [] value
contains_text (c ∷ s) value = if has_prefix (c ∷ s) value then true else contains_text s value

-- The edit of `RemoveLinesContaining`.
unfoldable pub without_lines : Text → Text → Text
without_lines value content =
    join (chars "\n") (select (λ line. not (contains_text line value)) (split_on b'\n' content))

pub data SymlinkError : Type 0 where
  missing_symlink_source : String → SymlinkError
  source_not_regular : String → SymlinkError
  target_is_directory : String → SymlinkError
  os_error : OsError → SymlinkError

abbrev source_error : String → OsError → SymlinkError
source_error source not_exist = missing_symlink_source source
source_error source (other_error e) = os_error (other_error e)

module _ {W : Type 0} (os : FileOps W) where
  -- What makes room for the link.
  abbrev clear_target : String → Result OsError FileInfo → Exec W SymlinkError (Unit {0})
  clear_target target (ok info) =
      if info.is_dir
      then raise (target_is_directory target)
      else wrap_err os_error (os.remove target)
  clear_target target (err not_exist) = pure tt
  clear_target target (err (other_error e)) = raise (os_error (other_error e))

  unfoldable pub replace_symlink : String → String → Exec W SymlinkError (Unit {0})
  replace_symlink source target = wrap_err (source_error source) (os.stat source) >>= λ info.
      (if not info.is_regular
        then raise (source_not_regular source)
        else ((λ w. let (r, w') = os.lstat target w in clear_target target r w') >>= λ _.
            wrap_err os_error (os.symlink source target)))

  abbrev remove_link : String → String → Result OsError FileInfo → Exec W OsError (Unit {0})
  remove_link source target (err not_exist) = pure tt
  remove_link source target (err (other_error e)) = raise (other_error e)
  remove_link source target (ok info) =
      if not info.is_symlink
      then pure tt
      else (os.readlink target >>= λ link.
          (if not (link == source) then pure tt else os.remove target))

  unfoldable pub remove_matching_symlink : String → String → Exec W OsError (Unit {0})
  remove_matching_symlink source target w =
      let (r, w') = os.lstat target w in remove_link source target r w'

  abbrev pub discard : String → W → W
  discard temporary w = (os.remove temporary (os.close temporary w).1).1

  -- What is done to the temporary file until it takes the place of the other one.
  unfoldable pub fill : String → String → ℕ → Text → Exec W OsError (Unit {0})
  fill resolved_path temporary mode data_ = os.chmod temporary mode >>= λ _.
      os.write temporary data_ >>= λ _.
      os.sync temporary >>= λ _. os.close temporary >>= λ _. os.rename temporary resolved_path

  unfoldable pub write_file_preserving_mode : String → Text → Exec W OsError (Unit {0})
  write_file_preserving_mode path data_ = os.eval_symlinks path >>= λ resolved_path.
      os.stat_mode resolved_path >>= λ mode.
      os.create_temp (os.dir resolved_path) ("." <> os.base resolved_path <> ".tmp-*")
      >>= λ temporary. deferred (discard temporary) (fill resolved_path temporary mode data_)

  abbrev is_regular_file : Result OsError FileInfo → Bool
  is_regular_file (err e) = false
  is_regular_file (ok info) = info.is_regular

  -- The answer, and the world after the question.
  unfoldable pub regular_file : String → W → Bool × W
  regular_file path w = let (r, w') = os.stat path w in (is_regular_file r, w')

  unfoldable pub edit_file : String → (Text → Text) → Exec W OsError (Unit {0})
  edit_file path edit w =
      let (regular, w') = regular_file path w in
      if not regular
      then (ok tt, w')
      else (os.read_file path >>= λ content. write_file_preserving_mode path (edit content)) w'

  unfoldable pub remove_lines_containing : String → Text → Exec W OsError (Unit {0})
  remove_lines_containing path value = edit_file path (without_lines value)
