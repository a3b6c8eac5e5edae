-- ===== src/Bootstrap/Os.antt =====
-- What the `os` package reports: its errors, and what `Stat` and `Lstat` say of a file.
use zabbix_docker.Base.{String, Bool, nat_eq, char_eq, string_eq, list_eq}

pub data OsError : Type 0 where
  -- `errors.Is(err, os.ErrNotExist)`
  not_exist : OsError
  other_error : String → OsError

pub record FileInfo : Type 0 where
  pub is_dir : Bool
  pub is_regular : Bool
  pub is_symlink : Bool
