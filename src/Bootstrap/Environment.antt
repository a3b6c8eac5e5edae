-- ===== src/Bootstrap/Environment.antt =====
-- templates/entrypoints/internal/bootstrap/environment.go: the set of environment variables.
pub mod Clearing
pub mod RoundTrip
use Prim.Native.Nat.{Ordering}
use Prim.Native.String.{compare}
use zabbix_docker.Base.{
  ℕ, zero, suc, ◌+◌, ◌-◌, ◌*◌, ◌/◌, ◌%◌, ◌^◌, ◌≤◌, ◌<◌, Char, code, String, ◌<>◌, ◌≡◌, refl, sym,
  ap, ◌∙◌, ◌≢◌, ◌↔◌, ◌⊎◌, inl, inr, Bool, true, false, not, ◌&&◌, ◌||◌, Option, none, some, List,
  [], ◌∷◌, ◌++◌, map, arith, starts_with, ltb, leb, ltb→lt, lt→ltb, leb→le, nat_eq_iff,
  if◌then◌else◌, Bool-cases, Option-cases, Eq, ◌==◌, char_eq_iff, nat_eq, char_eq, string_eq,
  list_eq, list_beq, list_eq_iff, contains, beq_refl, Result, ok, err, ◌>>=◌, ◌>>◌, bind-eq-ok,
  map_err, Result-cases, length, get_elem?, take, drop, is_empty, select, length-append,
  take-append-drop, select-append, list_ext, All, All-append, In, here, there, In-of_get_elem?,
  All-In, Text, chars, of_text, of_text-chars, chars-of_text, is_code, is_space, trim_left,
  trim_right, trim, trim_space, cut_prefix, is_some, has_prefix, cut_suffix, has_suffix,
  trim_suffix, trim_prefix, cons_head, split_on, cut, count_code, join, lower_code, fold_code,
  lower_is, equal_fold, chars-append, of_text-append, cut-append, cut-count_code,
}
use zabbix_docker.Base.Dict.{Dict, keys, lookup, insert, erase, erase_where}
use zabbix_docker.Base.Sort.{sort}
use zabbix_docker.Bootstrap.Os.{OsError, FileInfo}

abbrev pub Environment : Type 0
Environment = Dict String String

-- `env[name]`: the empty string where the variable is missing.
abbrev pub or_empty : Option String → String
or_empty none = ""
or_empty (some value) = value

abbrev pub get : Environment → String → String
get env name = or_empty (lookup name env)

abbrev pub string_less : String → String → Bool
string_less s t = elim (compare s t) [ Ordering.lt ↦ true | _ ↦ false ]

-- One round of the loop of `NewEnvironment`: an item with no `=` is skipped.
unfoldable pub add_item : Environment → String → Environment
add_item env item = elim (cut b'=' (chars item)) [
  | none ↦ env
  | some (name, value) ↦ insert (of_text name) (of_text value) env
]

unfoldable pub add_items : Environment → List String → Environment
add_items env [] = env
add_items env (item ∷ values) = add_items (add_item env item) values

unfoldable pub new_environment : List String → Environment
new_environment values = add_items [] values

unfoldable pub list : Environment → List String
list env = map (λ name. name <> "=" <> get env name) (sort string_less (keys env))

unfoldable pub value_or_default : Environment → String → String → String
value_or_default env name default_value = elim (lookup name env) [
  | none ↦ default_value
  | some value ↦ value
]

unfoldable pub set_default : String → String → Environment → Environment
set_default name default_value env = elim (lookup name env) [
  | none ↦ insert name default_value env
  | some value ↦ env
]

unfoldable pub set_default_non_empty : String → String → Environment → Environment
set_default_non_empty name default_value env =
    if get env name == "" then insert name default_value env else env

unfoldable pub value_or_default_non_empty : Environment → String → String → String
value_or_default_non_empty env name default_value =
    if not (get env name == "") then get env name else default_value

pub data DirError : Type 0 where
  must_be_set : DirError
  access : String → OsError → DirError
  not_a_directory : String → DirError

-- `os.Stat` is the parameter.
module _ (stat : String → Result OsError FileInfo) where
  unfoldable pub validate_dir : String → Result DirError (Unit {0})
  validate_dir dir = if dir == "" then err must_be_set else elim (stat dir) [
    | err e ↦ err (access dir e)
    | ok info ↦ if not info.is_dir then err (not_a_directory dir) else ok tt
  ]

  -- The error names the variable.
  unfoldable pub required_dir : Environment → String → Result (String × DirError) String
  unfolding validate_dir
  required_dir env name = do
    let dir = get env name
    map_err (λ e. (name, e)) (validate_dir dir)
    ok dir

  unfoldable pub required_home_dir : Environment → Result (String × DirError) String
  unfolding required_dir
  required_home_dir env = required_dir env "ZABBIX_USER_HOME_DIR"

  unfoldable pub required_config_dir : Environment → Result (String × DirError) String
  unfolding required_dir
  required_config_dir env = required_dir env "ZABBIX_CONF_DIR"

  unfoldable pub common_dirs : Environment → Result (String × DirError) (String × String)
  unfolding required_home_dir required_config_dir
  common_dirs env = do
    home_dir ← required_home_dir env
    config_dir ← required_config_dir env
    ok (home_dir, config_dir)

unfoldable pub has_any_prefix : String → List String → Bool
has_any_prefix value [] = false
has_any_prefix value (prefix ∷ prefixes) =
    if starts_with value prefix then true else has_any_prefix value prefixes

abbrev pub private_prefixes : List String → List String
private_prefixes [] = "ZABBIX_" ∷ "DB_" ∷ "MYSQL_" ∷ "POSTGRES_" ∷ []
private_prefixes prefixes = prefixes

unfoldable pub clear_private_env : Environment → List String → Environment
clear_private_env env prefixes =
    if get env "ZBX_CLEAR_ENV" == "false"
    then env
    else erase_where (λ name. has_any_prefix name (private_prefixes prefixes)) env
