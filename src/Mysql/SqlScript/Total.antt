-- ===== src/Mysql/SqlScript/Total.antt =====
-- The fuel of the loops, and the statements that they yield.
use zabbix_docker.Base.{
  ℕ, zero, suc, ◌≤◌, ◌≡◌, refl, inl, inr, false, none, some, List, [], ◌∷◌, arith, if◌then◌else◌,
  Bool-cases, Option-cases, nat_eq, char_eq, string_eq, list_eq, Result, ok, ok-injective, length,
  is_empty, All, All-append, Text, chars, is_space, trim_space, is_some, equal_fold,
}
use zabbix_docker.Mysql.SqlScript.{
  SqlStatementParser, SqlError, new_parser, flush, step, write_from, write, words, fields,
  new_delimiter, can_change_delimiter, process_line, process_lines, script_lines,
  split_sql_statements, delimiter_of_fields, finish,
}
use zabbix_docker.Base.Trimming.{trim_space-twice}
use zabbix_docker.Mysql.SqlScript.Rounds.{IsRound, step-IsRound}

-- A statement is not empty, and neither its start nor its end is white space.
abbrev pub IsStatement : Text → Type 0
IsStatement statement = (is_empty statement ≡ false) × (trim_space statement ≡ statement)

-- The delimiter is not empty, so each round goes forward.
abbrev pub IsParser : SqlStatementParser → Type 0
IsParser p = (is_empty p.delimiter ≡ false) × All IsStatement p.statements

pub flush-IsStatement :
    (p : SqlStatementParser) → All IsStatement p.statements → All IsStatement (flush p).statements
unfolding flush is_empty
flush-IsStatement p h = elim (Bool-cases (is_empty (trim_space p.statement))) [
  | inl e ↦ rw (e, flush) h
  | inr e ↦
      rw (e, flush)
        (All-append IsStatement p.statements (trim_space p.statement ∷ []) h
          ((e, trim_space-twice p.statement), tt))
]

IsRound-IsParser :
    {p q : SqlStatementParser} {s rest : Text} → IsParser p → IsRound p s q rest → IsParser q
IsRound-IsParser {p} {q} (d, h) r = (
  rw r.same_delimiter d,
  elim r.statements [ inl e ↦ rw e h | inr e ↦ rw e (flush-IsStatement p h) ],
)

pub write_from-total :
    (fuel : ℕ) (p : SqlStatementParser) (value : Text)
    → length value ≤ fuel
    → IsParser p
    → (q : SqlStatementParser) × (write_from fuel p value ≡ some q) × IsParser q
unfolding write_from
write_from-total fuel p [] h i = (p, refl, i)
write_from-total zero p (c ∷ s) h i = absurd (omega arith)
write_from-total (suc fuel) p (c ∷ s) h i =
    let r = step-IsRound p c s i.0 in
    write_from-total fuel (step p c s).0 (step p c s).1 (omega (arith, r.forward))
      (IsRound-IsParser i r)

words-full : (s : Text) → All (λ word. is_empty word ≡ false) (words s).1
unfolding words is_empty
words-full [] = tt
words-full (c ∷ s) = elim (Bool-cases (is_space c)) [
  | inr h ↦ rw (h, words) (words-full s)
  | inl h ↦ elim (Bool-cases (is_empty (words s).0)) [
    | inl e ↦ rw (h, words) (rw e (words-full s))
    | inr e ↦ rw (h, words) (rw e (e, words-full s))
  ]
]

fields-full : (s : Text) → All (λ word. is_empty word ≡ false) (fields s)
unfolding fields
fields-full s = elim (Bool-cases (is_empty (words s).0)) [
  | inl e ↦ rw (e, fields) (words-full s)
  | inr e ↦ rw (e, fields) (e, words-full s)
]

delimiter_of_fields-full :
    (parts : List Text) (delimiter : Text)
    → All (λ word. is_empty word ≡ false) parts
    → delimiter_of_fields parts ≡ some delimiter
    → is_empty delimiter ≡ false
delimiter_of_fields-full [] delimiter _ h = cc
delimiter_of_fields-full (first ∷ []) delimiter _ h = cc
delimiter_of_fields-full (first ∷ second ∷ []) delimiter (_, (full, _)) h =
    elim (Bool-cases (equal_fold first (chars "DELIMITER"))) [
      | inl e ↦ cc (rw e at h, full)
      | inr e ↦ cc (rw e at h)
    ]
delimiter_of_fields-full (first ∷ second ∷ third ∷ parts) delimiter _ h = cc

new_delimiter-full :
    (line delimiter : Text) → new_delimiter line ≡ some delimiter → is_empty delimiter ≡ false
unfolding new_delimiter
new_delimiter-full line delimiter h =
    delimiter_of_fields-full (fields (trim_space line)) delimiter (fields-full (trim_space line)) h

chosen_delimiter :
    (p : SqlStatementParser) (line delimiter : Text)
    → (if can_change_delimiter p then new_delimiter line else none) ≡ some delimiter
    → is_empty delimiter ≡ false
chosen_delimiter p line delimiter h = elim (Bool-cases (can_change_delimiter p)) [
  | inl e ↦ new_delimiter-full line delimiter (rw e at h)
  | inr e ↦ cc (rw e at h)
]

process_line-total :
    (p : SqlStatementParser) (line : Text)
    → IsParser p
    → (q : SqlStatementParser) × (process_line p line ≡ some q) × IsParser q
unfolding process_line write
process_line-total p line i =
    elim (Option-cases (if can_change_delimiter p then new_delimiter line else none)) [
      | inl h ↦ rw (h, process_line) (write_from-total (length line) p line (omega arith) i)
      | inr (delimiter, h) ↦
          rw (h, process_line)
            (record p { delimiter = delimiter }, refl, (chosen_delimiter p line delimiter h, i.1))
    ]

pub process_lines-total :
    (p : SqlStatementParser) (lines : List Text)
    → IsParser p
    → (q : SqlStatementParser) × (process_lines p lines ≡ some q) × IsParser q
unfolding process_lines
process_lines-total p [] i = (p, refl, i)
process_lines-total p (line ∷ lines) i =
    let (q, h, j) = process_line-total p line i in
    rw (h, process_lines) (process_lines-total q lines j)

pub new_parser-IsParser : IsParser new_parser
unfolding is_empty chars
new_parser-IsParser = (refl, tt)

-- The splitting of a script always ends: with the statements, or with the error for a quoted string or a
-- block comment that the script does not close.
pub split_sql_statements-total :
    (script : Text)
    → (result : Result SqlError (List Text)) × (split_sql_statements script ≡ some result)
unfolding split_sql_statements
split_sql_statements-total script =
    let (q, h, _) = process_lines-total new_parser (script_lines script) new_parser-IsParser in
    (finish q, rw (h, split_sql_statements))

finish-IsStatement :
    (p : SqlStatementParser) (statements : List Text)
    → All IsStatement p.statements
    → finish p ≡ ok statements
    → All IsStatement statements
finish-IsStatement p statements i h = elim (Bool-cases (is_some p.quote)) [
  | inl e ↦ cc (rw e at h)
  | inr e ↦ elim (Bool-cases p.block_comment) [
    | inl b ↦ cc (simp (e, b) at h)
    | inr b ↦ rw (ok-injective (simp (e, b) at h)) at (flush-IsStatement p i)
  ]
]

-- Every statement that the splitting returns has a character that is not white space, and neither begins
-- nor ends with white space.
pub split_sql_statements-IsStatement :
    (script : Text) (statements : List Text)
    → split_sql_statements script ≡ some (ok statements)
    → All IsStatement statements
unfolding split_sql_statements
split_sql_statements-IsStatement script statements h =
    let (q, run, i) = process_lines-total new_parser (script_lines script) new_parser-IsParser in
    finish-IsStatement q statements i.1 (cc (rw (run, split_sql_statements) at h))
