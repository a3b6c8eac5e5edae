-- ===== src/Bootstrap/Indexed.antt =====
-- templates/entrypoints/internal/bootstrap/indexed.go: PREFIX_N variables.
pub mod Number
pub mod Collected
pub mod Suffix
pub mod Consecutive
use zabbix_docker.Base.Decimal.{ℤ, pos, negsuc, itoa, atoi}
use zabbix_docker.Base.{
  ℕ, zero, suc, ◌+◌, ◌-◌, ◌*◌, ◌/◌, ◌%◌, ◌^◌, ◌≤◌, ◌<◌, Char, code, String, ◌<>◌, ◌≡◌, refl, sym,
  ap, ◌∙◌, ◌≢◌, ◌↔◌, ◌⊎◌, inl, inr, Bool, true, false, not, ◌&&◌, ◌||◌, Option, none, some, List,
  [], ◌∷◌, ◌++◌, map, arith, starts_with, ltb, leb, ltb→lt, lt→ltb, leb→le, nat_eq_iff,
  if◌then◌else◌, Bool-cases, Option-cases, Eq, ◌==◌, char_eq_iff, nat_eq, char_eq, string_eq,
  list_eq, list_beq, list_eq_iff, contains, beq_refl, Result, ok, err, ◌>>=◌, ◌>>◌, bind-eq-ok,
  map_err, Result-cases, length, get_elem?, take, drop, is_empty, select, length-append,
  take-append-drop, select-append, list_ext, All, All-append, In, here, there, In-of_get_elem?,
  All-In, Text, chars, of_text, of_text-chars, chars-of_text, is_code, is_space, trim_left,
  trim_right, trim, trim_space, cut_prefix, is_some, has_prefix, cut_suffix, has_suffix,
  trim_suffix, trim_prefix, cons_head, split_on, cut, count_code, join, lower_code, fold_code,
  lower_is, equal_fold, chars-append, of_text-append, cut-append, cut-count_code,
}
use zabbix_docker.Base.Dict.{lookup}
use zabbix_docker.Base.Sort.{sort}
use zabbix_docker.Bootstrap.Environment.{Environment, string_less}

pub record IndexedVariable : Type 0 where
  pub index : ℕ
  pub name : String
  pub prefix : String

unfoldable pub indexed_name : String → ℕ → String
indexed_name prefix index = prefix <> "_" <> of_text (itoa index)

-- `none` where the text is no index.
unfoldable pub parse_indexed_number : String → Option ℕ
parse_indexed_number value = elim (atoi (chars value)) [
  | none ↦ none
  | some n ↦ elim n [
    | pos index ↦ if itoa index == chars value then some index else none
    | negsuc _ ↦ none
  ]
]

-- The first prefix that fits, and what follows its underscore.
unfoldable pub indexed_suffix : String → List String → Option (String × String)
indexed_suffix name [] = none
indexed_suffix name (prefix ∷ prefixes) = elim (cut_prefix (chars name) (chars (prefix <> "_"))) [
  | some suffix ↦ some (prefix, of_text suffix)
  | none ↦ indexed_suffix name prefixes
]

pub data IndexedError : Type 0 where
  not_supported : String → IndexedError
  invalid_variable : String → IndexedError
  must_not_be_empty : String → IndexedError
  index_used_twice : ℕ → String → String → IndexedError
  index_missing : String → ℕ → ℕ → IndexedError

-- The comparison of the first `sort.Slice`.
abbrev pub longer : String → String → Bool
longer s t = ltb (length (chars t)) (length (chars s))

-- The comparison of the second one.
abbrev pub variable_less : IndexedVariable → IndexedVariable → Bool
variable_less v w = if v.index == w.index then string_less v.name w.name else ltb v.index w.index

unfoldable pub check_unindexed : Environment → List String → Result IndexedError (Unit {0})
check_unindexed env [] = ok tt
check_unindexed env (prefix ∷ prefixes) = elim (lookup prefix env) [
  | some _ ↦ err (not_supported prefix)
  | none ↦ check_unindexed env prefixes
]

-- What the loop over the environment makes of one variable: nothing, or an element.
unfoldable pub read_variable :
    List String → Bool → String → String → Result IndexedError (Option IndexedVariable)
read_variable ordered strict name value = elim (indexed_suffix name ordered) [
  | none ↦ ok none
  | some (prefix, suffix) ↦ elim (parse_indexed_number suffix) [
    | none ↦ if strict then err (invalid_variable name) else ok none
    | some index ↦
        if value == ""
        then err (must_not_be_empty name)
        else ok (some (record { index = index; name = name; prefix = prefix }))
  ]
]

abbrev pub add_found : Option IndexedVariable → List IndexedVariable → List IndexedVariable
add_found none vs = vs
add_found (some v) vs = v ∷ vs

unfoldable pub read_variables :
    List String → Bool → Environment → Result IndexedError (List IndexedVariable)
read_variables ordered strict [] = ok []
read_variables ordered strict ((name, value) ∷ env) = do
  found ← read_variable ordered strict name value
  variables ← read_variables ordered strict env
  ok (add_found found variables)

abbrev same_index : Option IndexedVariable → IndexedVariable → Bool
same_index none v = false
same_index (some u) v = u.index == v.index

abbrev name_of : Option IndexedVariable → String
name_of none = ""
name_of (some u) = u.name

-- The last loop: the variable at each position has that index.
unfoldable pub check_consecutive :
    ℕ → Option IndexedVariable → List IndexedVariable → Result IndexedError (Unit {0})
check_consecutive expected previous [] = ok tt
check_consecutive expected previous (v ∷ vs) =
    let rest = check_consecutive (expected + 1) (some v) vs in
    if same_index previous v
    then err (index_used_twice v.index (name_of previous) v.name)
    else if not (v.index == expected)
    then err (index_missing v.name v.index expected)
    else rest

unfoldable pub collect_indexed :
    Environment → List String → Bool → Result IndexedError (List IndexedVariable)
collect_indexed env prefixes strict = do
  let ordered = sort longer prefixes
  check_unindexed env ordered
  found ← read_variables ordered strict env
  let variables = sort variable_less found
  check_consecutive 0 none variables
  ok variables
