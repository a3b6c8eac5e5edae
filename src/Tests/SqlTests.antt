-- ===== src/Tests/SqlTests.antt =====
-- A script, at concrete inputs.
use zabbix_docker.Base.{
  ◌≡◌, refl, some, List, [], ◌∷◌, ◌++◌, nat_eq, char_eq, string_eq, list_eq, list_beq, Result,
  is_empty, All, Text, chars, is_space, trim_left, trim_right, trim, trim_space, cut_prefix,
  equal_fold,
}
use zabbix_docker.Mysql.SqlScript.{
  SqlError, with_statement, flush, in_line_comment, in_block_comment, in_quote, in_code,
  line_comment_start, step, write_from, write, words, fields, new_delimiter, can_change_delimiter,
  process_line, process_lines, script_lines, split_sql_statements,
}
use zabbix_docker.Mysql.SqlScript.Literals.{
  in_script, IsBody, closed, plain, doubled, IsOther, write-quoted,
}
use zabbix_docker.Mysql.SqlScript.Comments.{holds_end}
use zabbix_docker.Mysql.SqlScript.Reading.{Reads, delimiter, string, block, write-Reads}
use zabbix_docker.Mysql.SqlScript.Reading
use zabbix_docker.Mysql.SqlScript.Total.{
  IsStatement, split_sql_statements-total, split_sql_statements-IsStatement,
}

abbrev script : Text
script = chars "use a; -- b;\nset 'c;'\n"

abbrev script_statements : List Text
script_statements = chars "use a" ∷ chars "set 'c;'" ∷ []

split_sql_statements-total_example :
    (result : Result SqlError (List Text)) × (split_sql_statements script ≡ some result)
split_sql_statements-total_example = split_sql_statements-total script

split_sql_statements-IsStatement_example : All IsStatement script_statements
unfolding split_sql_statements process_lines process_line script_lines can_change_delimiter
    new_delimiter fields words write write_from step in_line_comment in_block_comment in_quote
    in_code line_comment_start flush chars trim_space trim trim_left trim_right is_space is_empty
    cut_prefix equal_fold list_beq
split_sql_statements-IsStatement_example =
    split_sql_statements-IsStatement script script_statements refl

-- `a''`, the inside of a string in single quotes.
abbrev quote_body : Text
quote_body = "a" ∷ "'" ∷ "'" ∷ []

quote_body-IsBody : IsBody "'" quote_body
quote_body-IsBody = plain "a" refl refl (doubled closed)

write-quoted_example :
    write (in_script [] []) ("'" ∷ (quote_body ++ ("'" ∷ chars ";")))
    ≡ write (in_script ("'" ∷ (quote_body ++ ("'" ∷ []))) []) (chars ";")
unfolding chars
write-quoted_example = write-quoted [] "'" [] (chars ";") refl quote_body-IsBody refl

abbrev comment_source : Text
comment_source = "/" ∷ "*" ∷ (("x" ∷ []) ++ ("*" ∷ "/" ∷ "a" ∷ ";" ∷ []))

a-IsOther : IsOther "a"
a-IsOther = record { semicolon = refl; hash = refl; dash = refl; slash = refl }

comment-Reads : Reads comment_source (" " ∷ "a" ∷ [])
unfolding holds_end
comment-Reads = block ("x" ∷ []) refl refl (Reading.plain "a" a-IsOther refl delimiter)

write-Reads_example :
    write (in_script [] []) (comment_source ++ chars "b")
    ≡ write (in_script [] (with_statement (trim_space (" " ∷ "a" ∷ [])) [])) (chars "b")
write-Reads_example = write-Reads [] [] (chars "b") comment-Reads
