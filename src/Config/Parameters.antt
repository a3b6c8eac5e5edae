-- ===== src/Config/Parameters.antt =====
-- templates/entrypoints/internal/config/parameters.go: the lines of a configuration file.
pub mod Scanning
pub mod Rewriting
pub mod Merging
pub mod LineBreaks
use zabbix_docker.Base.{
  ℕ, String, refl, Bool, false, not, ◌&&◌, ◌||◌, Option, none, some, List, [], ◌∷◌, ◌++◌, map,
  if◌then◌else◌, nat_eq, char_eq, string_eq, list_eq, contains, length, take, drop, is_empty,
  select, Text, chars, is_code, trim_space, has_prefix, trim_suffix, trim_prefix, split_on, cut,
  join,
}
use zabbix_docker.Base.Exec.{Exec, pure, raise, lift, ◌>>=◌, ◌>>◌, wrap_err}
use zabbix_docker.Bootstrap.Environment.{Environment}
use zabbix_docker.Bootstrap.Indexed.{IndexedVariable, IndexedError, collect_indexed}
use zabbix_docker.Bootstrap.Os.{OsError}

pub data ConfigError : Type 0 where
  missing_file : String → OsError → ConfigError
  update_failed : String → OsError → ConfigError
  indexed : IndexedError → ConfigError
  template_unreadable : String → OsError → ConfigError
  runtime_unwritable : String → OsError → ConfigError

-- The files, in the state `W` of the world: `os.ReadFile`, `os.WriteFile` with mode 0644, and
-- `bootstrap.WriteFilePreservingMode`.
pub record Files (W : Type 0) : Type 0 where
  pub read_file : String → Exec W OsError Text
  pub write_file : String → Text → Exec W OsError (Unit {0})
  pub write_file_preserving_mode : String → Text → Exec W OsError (Unit {0})

abbrev starts_with_newline : Text → Bool
starts_with_newline [] = false
starts_with_newline (c ∷ s) = is_code b'\n' c

-- `strings.ReplaceAll(content, "\r\n", "\n")`: each `\r` that stands before a `\n` goes.
unfoldable pub replace_crlf : Text → Text
replace_crlf [] = []
replace_crlf (c ∷ s) =
    let rest = replace_crlf s in if is_code b'\r' c && starts_with_newline s then rest else c ∷ rest

unfoldable pub lines_of : Text → List Text
lines_of original = split_on b'\n' (trim_suffix (replace_crlf original) (chars "\n"))

unfoldable pub content_of : List Text → Text
content_of lines = join (chars "\n") lines ++ chars "\n"

abbrev pub active_prefix : Text → Text
active_prefix param = param ++ chars "="

-- A line that is commented out for the parameter.
abbrev pub is_comment : Text → Text → Bool
is_comment param line =
    has_prefix line (chars "# " ++ active_prefix param)
    || has_prefix line (chars "; " ++ active_prefix param)

abbrev pub is_active : Text → Text → Bool
is_active param line = has_prefix line (active_prefix param)

-- The variables of the loop over the lines; `none` is the position -1.
pub record Scan : Type 0 where
  pub updated : List Text
  pub existing : List Text
  pub insert_at : Option ℕ

abbrev pub scan_start : Scan
scan_start = record { updated = []; existing = []; insert_at = none }

abbrev comment_position : Text → Text → List Text → Option ℕ → Option ℕ
comment_position param line updated (some n) = some n
comment_position param line updated none =
    if is_comment param line then some (length updated) else none

unfoldable pub scan_line : Text → Bool → Scan → Text → Scan
scan_line param preserve s line =
    if is_active param line
    then if preserve
      then record {
        updated = s.updated ++ (line ∷ []);
        existing = s.existing ++ (trim_prefix line (active_prefix param) ∷ []);
        insert_at = some (length (s.updated ++ (line ∷ [])));
      }
      else s
    else record {
      updated = s.updated ++ (line ∷ []);
      existing = s.existing;
      insert_at = comment_position param line (s.updated ++ (line ∷ [])) s.insert_at;
    }

unfoldable pub scan_lines : Text → Bool → Scan → List Text → Scan
scan_lines param preserve s [] = s
scan_lines param preserve s (line ∷ lines) =
    scan_lines param preserve (scan_line param preserve s line) lines

abbrev pub is_new : List Text → Text → Bool
is_new existing value = not (is_empty value) && not (contains existing value)

-- The lines that are added for the values.
unfoldable pub param_lines : Text → List Text → List Text → List Text
param_lines param existing values =
    map (λ value. active_prefix param ++ value) (select (is_new existing) values)

-- The last line is there and is not empty.
unfoldable pub ends_with_text : List Text → Bool
ends_with_text [] = false
ends_with_text (line ∷ []) = not (is_empty line)
ends_with_text (line ∷ next ∷ lines) = ends_with_text (next ∷ lines)

unfoldable pub place_lines : Option ℕ → List Text → List Text → List Text
place_lines (some n) updated added = take n updated ++ (added ++ drop n updated)
place_lines none updated added =
    if not (is_empty added)
    then (if ends_with_text updated then updated ++ ([] ∷ []) else updated) ++ added
    else updated

unfoldable pub rewrite_lines : Text → List Text → Bool → List Text → List Text
rewrite_lines param values preserve lines =
    let s = scan_lines param preserve scan_start lines in
    place_lines s.insert_at s.updated (param_lines param s.existing values)

-- The lines between two places, with the blank ones at the end dropped.
unfoldable pub drop_blank_end : List Text → List Text
drop_blank_end [] = []
drop_blank_end (line ∷ lines) =
    let rest = drop_blank_end lines in
    if is_empty (trim_space line) && is_empty rest then [] else line ∷ rest

pub record IndexedParam : Type 0 where
  pub param : String
  pub variable : String

-- A line that sets one of the parameters.
unfoldable pub is_replaced : List Text → Text → Bool
is_replaced names line = elim (cut b'=' (trim_space line)) [
  | none ↦ false
  | some (name, rest) ↦ contains names name
]

abbrev pub reference_line : IndexedParam → Text
reference_line entry = chars entry.param ++ (chars "=${" ++ (chars entry.variable ++ chars "}"))

unfoldable pub replace_params_at_end : List Text → List IndexedParam → List Text → List Text
replace_params_at_end names params lines =
    let kept = drop_blank_end (select (λ line. not (is_replaced names line)) lines) in
    if is_empty params
    then kept
    else (if is_empty kept then kept else kept ++ ([] ∷ [])) ++ map reference_line params
