-- ===== src/Mysql/SqlScript/Literals.antt =====
-- What `write` makes of the parts of a script.
use zabbix_docker.Base.{
  ℕ, zero, suc, ◌≤◌, Char, ◌≡◌, refl, ap, ◌∙◌, Bool, true, false, none, some, List, [], ◌∷◌, ◌++◌,
  arith, ◌==◌, nat_eq, char_eq, string_eq, list_eq, beq_refl, length, is_empty, Text, chars,
  is_code, cut_prefix,
}
use zabbix_docker.Mysql.SqlScript.{
  SqlStatementParser, new_parser, write_text, is_quote, in_quote, in_code, line_comment_start,
  plain_character, step, write_from, write,
}
use mathlib.Core.List.{append_assoc}
use zabbix_docker.Mysql.SqlScript.Rounds.{step-IsRound}

-- The parser between two tokens, at the delimiter that a script starts with.
abbrev pub in_script : Text → List Text → SqlStatementParser
in_script statement statements = record new_parser {
  statement = statement;
  statements = statements;
}

abbrev pub quoted : Char → Text → List Text → SqlStatementParser
quoted q statement statements = record new_parser {
  statement = statement;
  statements = statements;
  quote = some q;
}

abbrev pub commented : Bool → Text → List Text → SqlStatementParser
commented keep statement statements = record new_parser {
  statement = statement;
  statements = statements;
  block_comment = true;
  keep_comment = keep;
}

two_fuels :
    (f g : ℕ) (p : SqlStatementParser) (s : Text)
    → length s ≤ f
    → length s ≤ g
    → is_empty p.delimiter ≡ false
    → write_from f p s ≡ write_from g p s
unfolding write_from
two_fuels f g p [] hf hg e = refl
two_fuels zero g p (c ∷ s) hf hg e = absurd (omega arith)
two_fuels (suc f) zero p (c ∷ s) hf hg e = absurd (omega arith)
two_fuels (suc f) (suc g) p (c ∷ s) hf hg e =
    let r = step-IsRound p c s e in
    two_fuels f g (step p c s).0 (step p c s).1 (omega (arith, r.forward))
      (omega (arith, r.forward)) (rw r.same_delimiter e)

-- More fuel than the text is long changes nothing.
write_from-fuel :
    (fuel : ℕ) (p : SqlStatementParser) (s : Text)
    → length s ≤ fuel
    → is_empty p.delimiter ≡ false
    → write_from fuel p s ≡ write p s
unfolding write write_from
write_from-fuel fuel p s h e = two_fuels fuel (length s) p s h (omega arith) e

-- One round, with the fuel put away.
pub write-step :
    (p : SqlStatementParser) (c : Char) (s : Text)
    → is_empty p.delimiter ≡ false
    → write p (c ∷ s) ≡ write (step p c s).0 (step p c s).1
unfolding write write_from
write-step p c s e =
    write_from-fuel (length s) (step p c s).0 (step p c s).1 (step-IsRound p c s e).forward
      (rw (step-IsRound p c s e).same_delimiter e)

-- The inside of a quoted string: any character but the quote and the backslash, a backslash and any
-- character, or the quote twice.
pub data IsBody (q : Char) : Text → Type 0 where
  closed : IsBody q []
  plain :
      (c : Char) {s : Text}
      → (c == q) ≡ false
      → is_code b'\\' c ≡ false
      → IsBody q s
      → IsBody q (c ∷ s)
  escaped : (d : Char) {s : Text} → IsBody q s → IsBody q ("\\" ∷ d ∷ s)
  doubled : {s : Text} → IsBody q s → IsBody q (q ∷ q ∷ s)

-- The text does not go on with the character.
abbrev pub NotNext : Char → Text → Type 0
NotNext q [] = Unit
NotNext q (c ∷ s) = (c == q) ≡ false

in_quote-plain :
    (p : SqlStatementParser) (q c : Char) (s : Text)
    → (c == q) ≡ false
    → is_code b'\\' c ≡ false
    → in_quote p q c s ≡ (write_text p (c ∷ []), s)
unfolding in_quote
in_quote-plain p q c [] h b = rw h refl
in_quote-plain p q c (d ∷ s) h b = rw (b, h) refl

in_quote-end :
    (p : SqlStatementParser) (q : Char) (s : Text)
    → is_code b'\\' q ≡ false
    → NotNext q s
    → in_quote p q q s ≡ (record p { statement = p.statement ++ (q ∷ []); quote = none }, s)
unfolding in_quote
in_quote-end p q [] b n = rw (beq_refl q) refl
in_quote-end p q (d ∷ s) b n = rw (b, beq_refl q, n) refl

in_quote-doubled :
    (p : SqlStatementParser) (q : Char) (s : Text)
    → is_code b'\\' q ≡ false
    → in_quote p q q (q ∷ s) ≡ (write_text p (q ∷ q ∷ []), s)
unfolding in_quote
in_quote-doubled p q s b = rw (b, beq_refl q) refl

pub record IsOther (c : Char) : Type 0 where
  pub semicolon : is_code b';' c ≡ false
  pub hash : is_code b'#' c ≡ false
  pub dash : is_code b'-' c ≡ false
  pub slash : is_code b'/' c ≡ false

pub line_comment_start-none :
    (c : Char) (s : Text)
    → is_code b'#' c ≡ false
    → is_code b'-' c ≡ false
    → line_comment_start c s ≡ none
unfolding line_comment_start
line_comment_start-none c [] h d = rw h refl
line_comment_start-none c (a ∷ []) h d = rw h refl
line_comment_start-none c (a ∷ b ∷ s) h d = rw (h, d) refl

quote-IsOther : (c : Char) → is_quote c ≡ true → IsOther c
quote-IsOther c h = record {
  semicolon = ground arith;
  hash = ground arith;
  dash = ground arith;
  slash = ground arith;
}

module _ (statements : List Text) where
  -- One round inside a quoted string.
  quoted-step :
      (q c : Char) (statement s : Text) (after : SqlStatementParser × Text)
      → in_quote (quoted q statement statements) q c s ≡ after
      → write (quoted q statement statements) (c ∷ s) ≡ write after.0 after.1
  unfolding is_empty chars step
  quoted-step q c statement s after h =
      write-step (quoted q statement statements) c s refl
      ∙ ap (λ (a : SqlStatementParser × Text). write a.0 a.1) h

  write-body :
      (q : Char) {body : Text} (statement rest : Text)
      → is_code b'\\' q ≡ false
      → IsBody q body
      → NotNext q rest
      → write (quoted q statement statements) (body ++ (q ∷ rest))
        ≡ write (in_script (statement ++ (body ++ (q ∷ []))) statements) rest
  unfolding in_quote
  write-body q statement rest b closed n =
      quoted-step q q statement rest _ (in_quote-end (quoted q statement statements) q rest b n)
  write-body q statement rest b (plain c {s} h bc i) n =
      quoted-step q c statement (s ++ (q ∷ rest)) _
        (in_quote-plain (quoted q statement statements) q c (s ++ (q ∷ rest)) h bc)
      ∙ write-body q (statement ++ (c ∷ [])) rest b i n
      ∙ rw (append_assoc statement (c ∷ []) (s ++ (q ∷ []))) refl
  write-body q statement rest b (escaped d {s} i) n =
      quoted-step q "\\" statement (d ∷ (s ++ (q ∷ rest))) _ refl
      ∙ write-body q (statement ++ ("\\" ∷ d ∷ [])) rest b i n
      ∙ rw (append_assoc statement ("\\" ∷ d ∷ []) (s ++ (q ∷ []))) refl
  write-body q statement rest b (doubled {s} i) n =
      quoted-step q q statement (q ∷ (s ++ (q ∷ rest))) _
        (in_quote-doubled (quoted q statement statements) q (s ++ (q ∷ rest)) b)
      ∙ write-body q (statement ++ (q ∷ q ∷ [])) rest b i n
      ∙ rw (append_assoc statement (q ∷ q ∷ []) (s ++ (q ∷ []))) refl

  -- A character that starts neither a comment nor a delimiter.
  pub in_code-other :
      (c : Char) (statement s : Text)
      → IsOther c
      → in_code (in_script statement statements) c s
        ≡ (plain_character (in_script statement statements) c, s)
  unfolding in_code cut_prefix chars
  in_code-other c statement s h =
      rw (h.semicolon, in_code) (rw (line_comment_start-none c s h.hash h.dash) (rw h.slash refl))

  -- A quoted string is kept as it is, whatever stands in it: no delimiter and no comment is seen inside.
  pub write-quoted :
      (q : Char) {body : Text} (statement rest : Text)
      → is_quote q ≡ true
      → IsBody q body
      → NotNext q rest
      → write (in_script statement statements) (q ∷ (body ++ (q ∷ rest)))
        ≡ write (in_script (statement ++ (q ∷ (body ++ (q ∷ [])))) statements) rest
  unfolding is_empty chars step
  write-quoted q {body} statement rest h i n =
      write-step (in_script statement statements) q (body ++ (q ∷ rest)) refl
      ∙ ap (λ (a : SqlStatementParser × Text). write a.0 a.1)
          (in_code-other q statement (body ++ (q ∷ rest)) (quote-IsOther q h))
      ∙ rw h refl
      ∙ write-body q (statement ++ (q ∷ [])) rest (ground arith) i n
      ∙ rw (append_assoc statement (q ∷ []) (body ++ (q ∷ []))) refl
