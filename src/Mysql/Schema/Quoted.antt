-- ===== src/Mysql/Schema/Quoted.antt =====
-- The quoting of MySQL's identifiers.
use zabbix_docker.Base.{String, ◌≡◌, some, ◌++◌, nat_eq, char_eq, string_eq, list_eq, Text, chars}
use zabbix_docker.Base.Replace.Quoting.{unquote, NotQuote, unquote-quoted}
use zabbix_docker.Mysql.Schema.{quote_identifier}

-- Whatever text is quoted, a reader that takes a doubled quote for one quote, and a single one for the
-- end, reads exactly that text and stops at the end of what quoteIdentifier wrote, when no quote follows.
pub unquote-quote_identifier :
    (value : String) (rest : Text)
    → NotQuote b'`' rest
    → unquote b'`' (chars (quote_identifier value) ++ rest) ≡ some (chars value, rest)
unfolding quote_identifier chars
unquote-quote_identifier value rest n = unquote-quoted "`" (chars value) rest n
