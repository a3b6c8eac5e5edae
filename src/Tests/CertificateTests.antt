-- ===== src/Tests/CertificateTests.antt =====
-- Runs of the generated directories of secrets and certificates.
use zabbix_docker.Base.{
  ℕ, ◌+◌, ◌≡◌, refl, true, false, some, [], ◌∷◌, nat_eq, char_eq, string_eq, list_eq, list_beq, ok,
  err, is_empty, chars, cut_prefix, has_prefix, split_on, join,
}
use zabbix_docker.Base.Dict.{lookup, insert}
use zabbix_docker.Base.Paths.{is_local, clean, clean_parts, clean_up}
use zabbix_docker.Bootstrap.Os.{not_exist}
use zabbix_docker.Bootstrap.Managed.Stale.{stale_families}
use zabbix_docker.Bootstrap.Managed.{
  ManagedOps, write_secret, write_in_root, open_managed, managed_relative_path, create_managed_temp,
  create_temp_from, fill_secret,
}
use zabbix_docker.Bootstrap.SecretRegistry.{service, proxy_mysql, is_server, is_web, is_proxy}
use zabbix_docker.Bootstrap.SecretFiles.{SecretRoots}
use zabbix_docker.Bootstrap.SecretDirs.{WorldFiles}
use zabbix_docker.Bootstrap.SecretCa.{Names, copy_one, copy_files}
use zabbix_docker.Bootstrap.SecretCa.Copied.{Copies, AreSeparate, copy_files-Copies}

-- A file system where all succeeds; the state counts the files that are renamed.
abbrev ops : ManagedOps ℕ (Unit {0}) (Unit {0})
ops = record {
  mkdir_all = λ path mode w. (ok tt, w);
  lstat = λ path w. (ok (record { is_dir = true; is_regular = false; is_symlink = false }), w);
  open_root = λ path w. (ok tt, w);
  close_root = λ root w. w;
  abs = λ path w. (ok path, w);
  rel = λ base path. ok "ssl/ca/name";
  dir = λ path. "ssl/ca";
  root_mkdir_all = λ root path mode w. (ok tt, w);
  root_chmod = λ root path mode w. (ok tt, w);
  root_remove_all = λ root path w. (ok tt, w);
  root_remove = λ root path w. (ok tt, w);
  root_rename = λ root a b w. (ok tt, w + 1);
  root_open = λ root path w. (ok tt, w);
  file_read_dir = λ file w. (ok [], w);
  root_create = λ root path mode w. (ok tt, w);
  token_name = λ w. (ok "00", w);
  file_chmod = λ file mode w. (ok tt, w);
  file_write = λ file data_ w. (ok tt, w);
  file_close = λ file w. (ok tt, w);
  is_exist = λ e. false;
}

abbrev fs : WorldFiles ℕ
fs = record {
  stat = λ path w. (err not_exist, w);
  eval_symlinks = λ path w. (ok path, w);
  abs = λ path w. (ok path, w);
  rel = λ base path. ok path;
  base = λ path. path;
  read_file = λ path w. (ok [], w);
  read_dir = λ path w. (ok [], w);
  rehash_directory = λ path w. (ok tt, w);
}

abbrev roots : SecretRoots
roots = record {
  external = "/run/zabbix/secrets";
  internal = "/run/zabbix/secrets_internal";
  docker = "/run/secrets";
}

abbrev copied : Names
copied = ("a.pem", "a.pem") ∷ ("b.pem", "b.pem") ∷ []

copy_files-Copies_example :
    Copies ops fs roots "ca" ("a.pem" ∷ "" ∷ "b.pem" ∷ []) (0, some tt) (2, some tt)
    × AreSeparate ops fs roots "ca" ("a.pem" ∷ "" ∷ "b.pem" ∷ [])
unfolding copy_files copy_one lookup insert write_secret write_in_root open_managed
    managed_relative_path create_managed_temp create_temp_from fill_secret is_local clean
    clean_parts clean_up list_beq is_empty chars split_on has_prefix cut_prefix join
copy_files-Copies_example =
    copy_files-Copies ops fs roots "ca" ("a.pem" ∷ "" ∷ "b.pem" ∷ []) [] copied (0, some tt)
      (2, some tt) refl

stale_service : stale_families proxy_mysql service ≡ "telemetry" ∷ []
unfolding stale_families is_server is_web is_proxy
stale_service = refl
