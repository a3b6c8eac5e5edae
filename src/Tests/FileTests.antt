-- ===== src/Tests/FileTests.antt =====
-- The replacement of a file, at concrete inputs.
use zabbix_docker.Base.{
  String, ◌≡◌, refl, sym, ap, ◌∙◌, ◌≢◌, inl, inr, true, false, [], if◌then◌else◌, Bool-cases, ◌==◌,
  nat_eq, char_eq, string_eq, list_eq, Result, ok, ok-injective, Text, chars,
}
use zabbix_docker.Base.Exec.{pure, raise}
use zabbix_docker.Bootstrap.Os.{OsError, FileInfo, other_error}
use zabbix_docker.Bootstrap.Files.{FileOps, write_file_preserving_mode, fill}
use zabbix_docker.Bootstrap.Files.Atomic.{IsApart, write_file_preserving_mode-keeps}

-- The world is the content of the file `a` and that of the one temporary file; a rename fails.
abbrev TwoFiles : Type 0
TwoFiles = Text × Text

abbrev set_file : String → Text → TwoFiles → TwoFiles
set_file path data_ (a, t) = if path == "a" then (data_, t) else (a, data_)

abbrev a_file : FileInfo
a_file = record { is_dir = false; is_regular = true; is_symlink = false }

abbrev two_files : FileOps TwoFiles
two_files = record {
  eval_symlinks = λ path. pure path;
  stat_mode = λ path. pure 420;
  stat = λ path. pure a_file;
  dir = λ path. ".";
  base = λ path. path;
  create_temp = λ dir pattern. pure "t";
  chmod = λ path mode. pure tt;
  write = λ path data_ w. (ok tt, set_file path data_ w);
  sync = λ path. pure tt;
  close = λ path. pure tt;
  rename = λ from to. raise (other_error "rename");
  remove = λ path w. (ok tt, set_file path [] w);
  read_file = λ path. pure [];
  lstat = λ path. pure a_file;
  symlink = λ source target. pure tt;
  readlink = λ path. pure path;
}

set_file-keeps :
    (path : String) (data_ : Text) (w : TwoFiles) → path ≢ "a" → (set_file path data_ w).0 ≡ w.0
set_file-keeps path data_ (a, t) other = elim (Bool-cases (path == "a")) [
  | inl h ↦ absurd (other ((string_eq.beq_iff path "a").0 h))
  | inr h ↦ rw h refl
]

two_files-IsApart : IsApart two_files "a" (λ w. w.0)
two_files-IsApart = record {
  eval_symlinks_keeps = λ path w. refl;
  stat_keeps = λ path w. refl;
  create_temp_keeps = λ dir pattern w. refl;
  chmod_keeps = λ path mode w. refl;
  write_keeps = set_file-keeps;
  sync_keeps = λ path w. refl;
  close_keeps = λ path w. refl;
  create_temp_fresh =
      λ dir pattern temporary w h same. cc ((string_eq.beq_iff "t" "a").1 (ok-injective h ∙ same));
  remove_keeps = λ path w other. set_file-keeps path [] w other;
  rename_fails =
      λ from to w w' e h. sym (ap (λ (p : Result OsError (Unit {0}) × TwoFiles). p.1.0) h);
}

write_file_preserving_mode-keeps_example : chars "old" ≡ chars "old"
unfolding write_file_preserving_mode fill
write_file_preserving_mode-keeps_example =
    write_file_preserving_mode-keeps two_files "a" (λ w. w.0) "a" (chars "new") (chars "old", [])
      (chars "old", []) (other_error "rename") two_files-IsApart refl
