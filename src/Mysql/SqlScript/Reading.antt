-- ===== src/Mysql/SqlScript/Reading.antt =====
-- How `write` reads one statement of a script, with its strings and its comments.
use zabbix_docker.Base.{
  Char, ◌≡◌, refl, ap, ◌∙◌, inl, inr, true, false, some, List, [], ◌∷◌, ◌++◌, if◌then◌else◌,
  Bool-cases, nat_eq, char_eq, string_eq, list_eq, is_empty, Text, chars, trim_space, cut_prefix,
  count_code,
}
use zabbix_docker.Mysql.SqlScript.{
  SqlStatementParser, with_statement, flush, is_sql_space, is_quote, in_code, line_comment_start,
  step, write,
}
use mathlib.Core.List.{append-nil, append_assoc}
use zabbix_docker.Mysql.SqlScript.{is_kept_comment}
use zabbix_docker.Mysql.SqlScript.Literals.{
  in_script, commented, write-step, IsBody, NotNext, IsOther, in_code-other, write-quoted,
  line_comment_start-none,
}
use zabbix_docker.Mysql.SqlScript.Comments.{holds_end, write-line_comment, write-block_comment}

-- White space or the end of the line follows: `--` starts a comment only then.
abbrev pub BlankNext : Text → Type 0
BlankNext [] = Unit
BlankNext (c ∷ s) = is_sql_space c ≡ true

-- The text of one statement with the `;` that ends it, and what the statement is without its comments: a
-- comment up to the end of a line leaves the line break, a block comment a space; the block comments
-- `/*!` and `/*+`, which the server reads, stay.
pub data Reads : Text → Text → Type 0 where
  delimiter : Reads (";" ∷ []) []
  plain :
      (c : Char) {s m : Text} → IsOther c → is_quote c ≡ false → Reads s m → Reads (c ∷ s) (c ∷ m)
  string :
      (q : Char) (body : Text) {s m : Text}
      → is_quote q ≡ true
      → IsBody q body
      → NotNext q s
      → Reads s m
      → Reads (q ∷ (body ++ (q ∷ s))) (q ∷ (body ++ (q ∷ m)))
  hash :
      (body : Text) {s m : Text}
      → count_code b'\n' body ≡ 0
      → Reads s m
      → Reads ("#" ∷ (body ++ ("\n" ∷ s))) ("\n" ∷ m)
  dashes :
      (body : Text) {s m : Text}
      → count_code b'\n' body ≡ 0
      → BlankNext body
      → Reads s m
      → Reads ("-" ∷ "-" ∷ (body ++ ("\n" ∷ s))) ("\n" ∷ m)
  block :
      (body : Text) {s m : Text}
      → holds_end body ≡ false
      → is_kept_comment body ≡ false
      → Reads s m
      → Reads ("/" ∷ "*" ∷ (body ++ ("*" ∷ "/" ∷ s))) (" " ∷ m)
  hint :
      (body : Text) {s m : Text}
      → holds_end body ≡ false
      → is_kept_comment body ≡ true
      → Reads s m
      → Reads ("/" ∷ "*" ∷ (body ++ ("*" ∷ "/" ∷ s))) ("/" ∷ "*" ∷ (body ++ ("*" ∷ "/" ∷ m)))

NotNext-append :
    {s m : Text} (q : Char) (rest : Text) → Reads s m → NotNext q s → NotNext q (s ++ rest)
NotNext-append q rest delimiter n = n
NotNext-append q rest (plain _ _ _ _) n = n
NotNext-append q rest (string _ _ _ _ _ _) n = n
NotNext-append q rest (hash _ _ _) n = n
NotNext-append q rest (dashes _ _ _ _) n = n
NotNext-append q rest (block _ _ _ _) n = n
NotNext-append q rest (hint _ _ _ _) n = n

is_kept_comment-body :
    (body rest : Text) → is_kept_comment (body ++ ("*" ∷ rest)) ≡ is_kept_comment body
is_kept_comment-body [] rest = refl
is_kept_comment-body (c ∷ body) rest = refl

line_comment_start-dashes :
    (c : Char) (s : Text)
    → is_sql_space c ≡ true
    → line_comment_start "-" ("-" ∷ c ∷ s) ≡ some (c ∷ s)
unfolding line_comment_start
line_comment_start-dashes c s b = rw b refl

module _ (statements : List Text) where
  read_plain :
      (c : Char) (statement s : Text)
      → IsOther c
      → is_quote c ≡ false
      → write (in_script statement statements) (c ∷ s)
        ≡ write (in_script (statement ++ (c ∷ [])) statements) s
  unfolding is_empty chars step
  read_plain c statement s o nq =
      write-step (in_script statement statements) c s refl
      ∙ ap (λ (a : SqlStatementParser × Text). write a.0 a.1)
          (in_code-other statements c statement s o)
      ∙ rw nq refl

  read_hash :
      (statement body s : Text)
      → count_code b'\n' body ≡ 0
      → write (in_script statement statements) ("#" ∷ (body ++ ("\n" ∷ s)))
        ≡ write (in_script (statement ++ chars "\n") statements) s
  unfolding is_empty chars step in_code line_comment_start cut_prefix
  read_hash statement body s h =
      write-step (in_script statement statements) "#" (body ++ ("\n" ∷ s)) refl
      ∙ write-line_comment statements statement body s h

  in_code-dashes :
      (statement : Text) (c : Char) (s : Text)
      → is_sql_space c ≡ true
      → in_code (in_script statement statements) "-" ("-" ∷ c ∷ s)
        ≡ (record (in_script statement statements) { line_comment = true }, c ∷ s)
  unfolding in_code chars cut_prefix
  in_code-dashes statement c s b = rw (line_comment_start-dashes c s b, in_code) refl

  in_code-open :
      (statement t : Text)
      → in_code (in_script statement statements) "/" ("*" ∷ t) ≡ (
        commented
            (is_kept_comment t)
            (if is_kept_comment t then statement ++ chars "/*" else statement)
            statements,
        t,
      )
  unfolding in_code chars cut_prefix
  in_code-open statement t = rw (line_comment_start-none "/" ("*" ∷ t) refl refl, in_code) refl

  open_comment :
      (statement t : Text)
      → write (in_script statement statements) ("/" ∷ "*" ∷ t)
        ≡ write
            (commented
              (is_kept_comment t)
              (if is_kept_comment t then statement ++ chars "/*" else statement)
              statements)
            t
  unfolding is_empty chars step
  open_comment statement t =
      write-step (in_script statement statements) "/" ("*" ∷ t) refl
      ∙ ap (λ (a : SqlStatementParser × Text). write a.0 a.1) (in_code-open statement t)

  read_dashes :
      (statement body s : Text)
      → count_code b'\n' body ≡ 0
      → BlankNext body
      → write (in_script statement statements) ("-" ∷ "-" ∷ (body ++ ("\n" ∷ s)))
        ≡ write (in_script (statement ++ chars "\n") statements) s
  unfolding is_empty chars step in_code line_comment_start cut_prefix
  read_dashes statement [] s h b =
      write-step (in_script statement statements) "-" ("-" ∷ "\n" ∷ s) refl
      ∙ write-line_comment statements statement [] s h
  read_dashes statement (c ∷ body) s h b =
      write-step (in_script statement statements) "-" ("-" ∷ c ∷ (body ++ ("\n" ∷ s))) refl
      ∙ ap (λ (a : SqlStatementParser × Text). write a.0 a.1)
          (in_code-dashes statement c (body ++ ("\n" ∷ s)) b)
      ∙ write-line_comment statements statement (c ∷ body) s h

  read_block :
      (statement body s : Text)
      → holds_end body ≡ false
      → write (in_script statement statements) ("/" ∷ "*" ∷ (body ++ ("*" ∷ "/" ∷ s)))
        ≡ write
            (in_script
              (statement
                ++ (if is_kept_comment body then "/" ∷ "*" ∷ (body ++ chars "*/") else chars " "))
              statements)
            s
  unfolding chars
  read_block statement body s h =
      open_comment statement (body ++ ("*" ∷ "/" ∷ s))
      ∙ rw (is_kept_comment-body body ("/" ∷ s)) (elim (Bool-cases (is_kept_comment body)) [
        | inl k ↦ rw k (
            write-block_comment statements true (statement ++ chars "/*") body s h
            ∙ rw (append_assoc statement (chars "/*") (body ++ chars "*/")) refl)
        | inr k ↦ rw k (write-block_comment statements false statement body s h)
      ])

  read_skipped :
      (statement body s : Text)
      → holds_end body ≡ false
      → is_kept_comment body ≡ false
      → write (in_script statement statements) ("/" ∷ "*" ∷ (body ++ ("*" ∷ "/" ∷ s)))
        ≡ write (in_script (statement ++ chars " ") statements) s
  read_skipped statement body s h k = rw k at (read_block statement body s h)

  read_hint :
      (statement body s : Text)
      → holds_end body ≡ false
      → is_kept_comment body ≡ true
      → write (in_script statement statements) ("/" ∷ "*" ∷ (body ++ ("*" ∷ "/" ∷ s)))
        ≡ write (in_script (statement ++ ("/" ∷ "*" ∷ (body ++ chars "*/"))) statements) s
  read_hint statement body s h k = rw k at (read_block statement body s h)

-- `write` reads one statement up to its delimiter: it adds the text without the comments to what the
-- parser already holds of the statement, and flushes; the rest is then read from a parser that holds
-- nothing of a statement.
pub write-Reads :
    {s m : Text} (statements : List Text) (statement rest : Text)
    → Reads s m
    → write (in_script statement statements) (s ++ rest)
      ≡ write (in_script [] (with_statement (trim_space (statement ++ m)) statements)) rest
unfolding is_empty chars step in_code flush cut_prefix
write-Reads statements statement rest delimiter =
    write-step (in_script statement statements) ";" rest refl ∙ rw (append-nil statement) refl
write-Reads statements statement rest (plain c {s} {m} o nq r) =
    read_plain statements c statement (s ++ rest) o nq
    ∙ rw (append_assoc statement (c ∷ []) m) at
        (write-Reads statements (statement ++ (c ∷ [])) rest r)
write-Reads statements statement rest (string q body {s} {m} h i n r) =
    rw (append_assoc body (q ∷ s) rest)
      (write-quoted statements q statement (s ++ rest) h i (NotNext-append q rest r n))
    ∙ write-Reads statements (statement ++ (q ∷ (body ++ (q ∷ [])))) rest r
    ∙ rw (append_assoc statement (q ∷ (body ++ (q ∷ []))) m, append_assoc body (q ∷ []) m) refl
write-Reads statements statement rest (hash body {s} {m} h r) =
    rw (append_assoc body ("\n" ∷ s) rest) (read_hash statements statement body (s ++ rest) h)
    ∙ rw (append_assoc statement ("\n" ∷ []) m) at
        (write-Reads statements (statement ++ chars "\n") rest r)
write-Reads statements statement rest (dashes body {s} {m} h b r) =
    rw (append_assoc body ("\n" ∷ s) rest) (read_dashes statements statement body (s ++ rest) h b)
    ∙ rw (append_assoc statement ("\n" ∷ []) m) at
        (write-Reads statements (statement ++ chars "\n") rest r)
write-Reads statements statement rest (block body {s} {m} h k r) =
    rw (append_assoc body ("*" ∷ "/" ∷ s) rest)
      (read_skipped statements statement body (s ++ rest) h k)
    ∙ rw (append_assoc statement (" " ∷ []) m) at
        (write-Reads statements (statement ++ chars " ") rest r)
write-Reads statements statement rest (hint body {s} {m} h k r) =
    rw (append_assoc body ("*" ∷ "/" ∷ s) rest)
      (read_hint statements statement body (s ++ rest) h k)
    ∙ (write-Reads statements (statement ++ ("/" ∷ "*" ∷ (body ++ chars "*/"))) rest r)
    ∙ rw
        (
          append_assoc statement ("/" ∷ "*" ∷ (body ++ chars "*/")) m,
          append_assoc body (chars "*/") m,
        )
        refl
