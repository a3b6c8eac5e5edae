-- ===== src/Mysql/SqlScript.antt =====
-- templates/entrypoints/internal/mysql/sqlscript.go: a script split into its statements.
mod Rounds
pub mod Total
pub mod Literals
pub mod Comments
pub mod Reading
use zabbix_docker.Base.{
  ℕ, zero, suc, Char, refl, Bool, true, false, not, ◌&&◌, ◌||◌, Option, none, some, List, [], ◌∷◌,
  ◌++◌, if◌then◌else◌, ◌==◌, nat_eq, char_eq, string_eq, list_eq, Result, ok, err, length, is_empty,
  Text, chars, is_code, is_space, trim_space, cut_prefix, is_some, cons_head, equal_fold,
}

-- `quote` is `none` where the byte of the source is 0.
pub record SqlStatementParser : Type 0 where
  pub delimiter : Text
  pub statement : Text
  pub statements : List Text
  pub quote : Option Char
  pub line_comment : Bool
  pub block_comment : Bool
  pub keep_comment : Bool

pub data SqlError : Type 0 where
  unterminated_quoted_string : SqlError
  unterminated_block_comment : SqlError

abbrev pub new_parser : SqlStatementParser
new_parser = record {
  delimiter = chars ";";
  statement = [];
  statements = [];
  quote = none;
  line_comment = false;
  block_comment = false;
  keep_comment = false;
}

-- The statement's builder.
abbrev pub write_text : SqlStatementParser → Text → SqlStatementParser
write_text p value = record p { statement = p.statement ++ value }

abbrev pub with_statement : Text → List Text → List Text
with_statement statement statements =
    if is_empty statement then statements else statements ++ (statement ∷ [])

unfoldable pub flush : SqlStatementParser → SqlStatementParser
flush p = record p {
  statement = [];
  statements = with_statement (trim_space p.statement) p.statements;
}

abbrev pub is_sql_space : Char → Bool
is_sql_space c = is_code b' ' c || is_code b'\t' c || is_code b'\r' c || is_code b'\n' c

abbrev pub is_quote : Char → Bool
is_quote c = is_code b'\'' c || is_code b'"' c || is_code b'`' c

-- One round of the loop of `write`: the parser after it, and the text from the new index on.
unfoldable pub in_line_comment : SqlStatementParser → Char → Text → SqlStatementParser × Text
in_line_comment p c s = (
  if is_code b'\n' c
      then record p { line_comment = false; statement = p.statement ++ chars "\n" }
      else p,
  s,
)

abbrev end_comment : SqlStatementParser → SqlStatementParser
end_comment p = record p {
  statement = p.statement ++ (if p.keep_comment then chars "*/" else chars " ");
  block_comment = false;
  keep_comment = false;
}

unfoldable pub in_block_comment : SqlStatementParser → Char → Text → SqlStatementParser × Text
in_block_comment p c s = elim (cut_prefix (c ∷ s) (chars "*/")) [
  | some rest ↦ (end_comment p, rest)
  | none ↦ (if p.keep_comment then write_text p (c ∷ []) else p, s)
]

unfoldable pub in_quote : SqlStatementParser → Char → Char → Text → SqlStatementParser × Text
in_quote p q c [] = (
  if c == q
      then record p { statement = p.statement ++ (c ∷ []); quote = none }
      else write_text p (c ∷ []),
  [],
)
in_quote p q c (d ∷ s) =
    if is_code b'\\' c
    then (write_text p (c ∷ d ∷ []), s)
    else if c == q
    then (if d == q
        then (write_text p (c ∷ d ∷ []), s)
        else (record p { statement = p.statement ++ (c ∷ []); quote = none }, d ∷ s))
    else (write_text p (c ∷ []), d ∷ s)

-- What follows `--`, where a blank comes next.
abbrev dash_comment : Char → Text → Option Text
dash_comment c (d ∷ e ∷ s) =
    if is_code b'-' c && is_code b'-' d && is_sql_space e then some (e ∷ s) else none
dash_comment c _ = none

unfoldable pub line_comment_start : Char → Text → Option Text
line_comment_start c s = if is_code b'#' c then some s else dash_comment c s

abbrev pub is_kept_comment : Text → Bool
is_kept_comment [] = false
is_kept_comment (c ∷ s) = is_code b'!' c || is_code b'+' c

abbrev pub start_comment : SqlStatementParser → Text → SqlStatementParser
start_comment p rest = record p {
  statement = if is_kept_comment rest then p.statement ++ chars "/*" else p.statement;
  block_comment = true;
  keep_comment = is_kept_comment rest;
}

abbrev pub plain_character : SqlStatementParser → Char → SqlStatementParser
plain_character p c = record p {
  statement = p.statement ++ (c ∷ []);
  quote = if is_quote c then some c else p.quote;
}

unfoldable pub in_code : SqlStatementParser → Char → Text → SqlStatementParser × Text
in_code p c s = elim (cut_prefix (c ∷ s) p.delimiter) [
  | some rest ↦ (flush p, rest)
  | none ↦ elim (line_comment_start c s) [
    | some rest ↦ (record p { line_comment = true }, rest)
    | none ↦ elim (cut_prefix (c ∷ s) (chars "/*")) [
      | some rest ↦ (start_comment p rest, rest)
      | none ↦ (plain_character p c, s)
    ]
  ]
]

unfoldable pub step : SqlStatementParser → Char → Text → SqlStatementParser × Text
step p c s =
    if p.line_comment
    then in_line_comment p c s
    else if p.block_comment
    then in_block_comment p c s
    else elim p.quote [ some q ↦ in_quote p q c s | none ↦ in_code p c s ]

-- The loop of `write`, on fuel: `none` says that the fuel ran out.
unfoldable pub write_from : ℕ → SqlStatementParser → Text → Option SqlStatementParser
write_from fuel p [] = some p
write_from zero p (c ∷ s) = none
write_from (suc fuel) p (c ∷ s) = let (p', rest) = step p c s in write_from fuel p' rest

unfoldable pub write : SqlStatementParser → Text → Option SqlStatementParser
write p value = write_from (length value) p value

-- `strings.Fields`: the words between the white space. The first component is the word that starts at
-- the text's start, empty where white space or the end comes first.
unfoldable pub words : Text → Text × List Text
words [] = ([], [])
words (c ∷ s) =
    let (word, rest) = words s in
    if is_space c then ([], if is_empty word then rest else word ∷ rest) else (c ∷ word, rest)

unfoldable pub fields : Text → List Text
fields s = let (word, rest) = words s in if is_empty word then rest else word ∷ rest

abbrev pub delimiter_of_fields : List Text → Option Text
delimiter_of_fields (first ∷ second ∷ []) =
    if equal_fold first (chars "DELIMITER") then some second else none
delimiter_of_fields _ = none

-- The delimiter that a `DELIMITER` line sets.
unfoldable pub new_delimiter : Text → Option Text
new_delimiter line = delimiter_of_fields (fields (trim_space line))

unfoldable pub can_change_delimiter : SqlStatementParser → Bool
can_change_delimiter p =
    not (is_some p.quote)
    && not p.line_comment
    && not p.block_comment
    && is_empty (trim_space p.statement)

-- One round of the loop of `splitSQLStatements`.
unfoldable pub process_line : SqlStatementParser → Text → Option SqlStatementParser
process_line p line = elim (if can_change_delimiter p then new_delimiter line else none) [
  | some delimiter ↦ some (record p { delimiter = delimiter })
  | none ↦ write p line
]

unfoldable pub process_lines : SqlStatementParser → List Text → Option SqlStatementParser
process_lines p [] = some p
process_lines p (line ∷ lines) = elim (process_line p line) [
  | none ↦ none
  | some p' ↦ process_lines p' lines
]

-- The lines of the script, each with the `\n` that ends it.
unfoldable pub script_lines : Text → List Text
script_lines [] = []
script_lines (c ∷ s) =
    let rest = script_lines s in if is_code b'\n' c then (c ∷ []) ∷ rest else cons_head c rest

abbrev pub finish : SqlStatementParser → Result SqlError (List Text)
finish p =
    if is_some p.quote
    then err unterminated_quoted_string
    else if p.block_comment
    then err unterminated_block_comment
    else ok (flush p).statements

unfoldable pub split_sql_statements : Text → Option (Result SqlError (List Text))
split_sql_statements script = elim (process_lines new_parser (script_lines script)) [
  | none ↦ none
  | some p ↦ some (finish p)
]
