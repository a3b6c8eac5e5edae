-- ===== src/Bootstrap/SqlFile.antt =====
-- `ReadSQLFile` of templates/entrypoints/internal/bootstrap/files.go.
use zabbix_docker.Base.{
  String, if◌then◌else◌, nat_eq, char_eq, string_eq, list_eq, Text, chars, has_suffix,
}
use zabbix_docker.Base.Exec.{Exec, ◌>>=◌, wrap_err}
use zabbix_docker.Bootstrap.Os.{OsError}
use zabbix_docker.Bootstrap.Files.{deferred}

pub data SqlFileError : Type 0 where
  open_failed : OsError → SqlFileError
  open_compressed_failed : String → OsError → SqlFileError
  read_failed : String → OsError → SqlFileError

-- `os.Open`, `gzip.NewReader` and `io.ReadAll`. The bytes that are read are those of a text.
pub record SqlFileOps (W Reader : Type 0) : Type 0 where
  pub open_file : String → Exec W OsError Reader
  pub gzip_reader : Reader → Exec W OsError Reader
  pub read_all : Reader → Exec W OsError Text
  pub close : Reader → W → W

module _ {W Reader : Type 0} (ops : SqlFileOps W Reader) where
  read_from : String → Reader → Exec W SqlFileError Text
  read_from path reader = wrap_err (read_failed path) (ops.read_all reader)

  unfoldable pub read_compressed : String → Reader → Exec W SqlFileError Text
  unfolding read_from
  read_compressed path file =
      wrap_err (open_compressed_failed path) (ops.gzip_reader file) >>= λ compressed.
      deferred (ops.close compressed) (read_from path compressed)

  unfoldable pub read_sql_file : String → Exec W SqlFileError Text
  unfolding read_from
  read_sql_file path = wrap_err open_failed (ops.open_file path) >>= λ file.
      deferred (ops.close file) (
        if has_suffix (chars path) (chars ".gz")
        then read_compressed path file
        else read_from path file)
