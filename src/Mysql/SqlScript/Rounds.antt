-- ===== src/Mysql/SqlScript/Rounds.antt =====
-- What one round of the loop of `write` may change.
use zabbix_docker.Base.{
  ◌≤◌, Char, ◌≡◌, refl, ap, ◌⊎◌, inl, inr, false, some, [], ◌∷◌, arith, Bool-cases, Option-cases,
  ◌==◌, nat_eq, char_eq, string_eq, list_eq, length, is_empty, length-append, Text, chars, is_code,
  cut_prefix, cut_prefix-eq,
}
use zabbix_docker.Mysql.SqlScript.{
  SqlStatementParser, flush, in_line_comment, in_block_comment, in_quote, in_code,
  line_comment_start, step,
}

-- The round went forward, kept the delimiter, and ended at most one statement.
pub record IsRound (p : SqlStatementParser) (s : Text) (q : SqlStatementParser) (rest : Text)
    : Type 0 where
  pub forward : length rest ≤ length s
  pub same_delimiter : q.delimiter ≡ p.delimiter
  pub statements : (q.statements ≡ p.statements) ⊎ (q.statements ≡ (flush p).statements)

cut_prefix-shorter :
    (c : Char) (s prefix rest : Text)
    → is_empty prefix ≡ false
    → cut_prefix (c ∷ s) prefix ≡ some rest
    → length rest ≤ length s
unfolding is_empty
cut_prefix-shorter c s [] rest e h = cc
cut_prefix-shorter c s (d ∷ prefix) rest e h =
    omega (arith, ap length (cut_prefix-eq (c ∷ s) (d ∷ prefix) rest h), length-append prefix rest)

in_line_comment-IsRound :
    (p : SqlStatementParser) (c : Char) (s : Text)
    → IsRound p s (in_line_comment p c s).0 (in_line_comment p c s).1
unfolding in_line_comment
in_line_comment-IsRound p c s = elim (Bool-cases (is_code b'\n' c)) [
  | inl h ↦ rw h (record { forward = omega arith; same_delimiter = refl; statements = inl refl })
  | inr h ↦ rw h (record { forward = omega arith; same_delimiter = refl; statements = inl refl })
]

in_block_comment-IsRound :
    (p : SqlStatementParser) (c : Char) (s : Text)
    → IsRound p s (in_block_comment p c s).0 (in_block_comment p c s).1
unfolding in_block_comment is_empty chars
in_block_comment-IsRound p c s = elim (Option-cases (cut_prefix (c ∷ s) (chars "*/"))) [
  | inl h ↦ elim (Bool-cases p.keep_comment) [
    | inl k ↦
        rw (h, in_block_comment)
          (rw k (record { forward = omega arith; same_delimiter = refl; statements = inl refl }))
    | inr k ↦
        rw (h, in_block_comment)
          (rw k (record { forward = omega arith; same_delimiter = refl; statements = inl refl }))
  ]
  | inr (rest, h) ↦
      rw (h, in_block_comment)
        (record {
          forward = cut_prefix-shorter c s (chars "*/") rest refl h;
          same_delimiter = refl;
          statements = inl refl;
        })
]

in_quote-IsRound :
    (p : SqlStatementParser) (q c : Char) (s : Text)
    → IsRound p s (in_quote p q c s).0 (in_quote p q c s).1
unfolding in_quote
in_quote-IsRound p q c [] = elim (Bool-cases (c == q)) [
  | inl h ↦ rw h (record { forward = omega arith; same_delimiter = refl; statements = inl refl })
  | inr h ↦ rw h (record { forward = omega arith; same_delimiter = refl; statements = inl refl })
]
in_quote-IsRound p q c (d ∷ s) = record {
  forward = ground arith;
  same_delimiter = ground arith;
  statements = inl (ground arith);
}

line_comment_start-shorter :
    (c : Char) (s rest : Text) → line_comment_start c s ≡ some rest → length rest ≤ length s
unfolding line_comment_start
line_comment_start-shorter c [] rest h = ground arith
line_comment_start-shorter c (d ∷ []) rest h = ground arith
line_comment_start-shorter c (d ∷ e ∷ s) rest h = ground arith

in_code-IsRound :
    (p : SqlStatementParser) (c : Char) (s : Text)
    → is_empty p.delimiter ≡ false
    → IsRound p s (in_code p c s).0 (in_code p c s).1
unfolding in_code is_empty chars flush
in_code-IsRound p c s e = elim (Option-cases (cut_prefix (c ∷ s) p.delimiter)) [
  | inr (rest, h) ↦
      rw (h, in_code)
        (record {
          forward = cut_prefix-shorter c s p.delimiter rest e h;
          same_delimiter = refl;
          statements = inr refl;
        })
  | inl h ↦ elim (Option-cases (line_comment_start c s)) [
    | inr (rest, g) ↦
        rw (h, in_code)
          (rw g (record {
            forward = line_comment_start-shorter c s rest g;
            same_delimiter = refl;
            statements = inl refl;
          }))
    | inl g ↦ elim (Option-cases (cut_prefix (c ∷ s) (chars "/*"))) [
      | inr (rest, f) ↦
          rw (h, in_code)
            (rw g (
              rw f (record {
                forward = cut_prefix-shorter c s (chars "/*") rest refl f;
                same_delimiter = refl;
                statements = inl refl;
              })))
      | inl f ↦
          rw (h, in_code)
            (rw g (
              rw f
                (record { forward = omega arith; same_delimiter = refl; statements = inl refl })))
    ]
  ]
]

pub step-IsRound :
    (p : SqlStatementParser) (c : Char) (s : Text)
    → is_empty p.delimiter ≡ false
    → IsRound p s (step p c s).0 (step p c s).1
unfolding step
step-IsRound p c s e = elim (Bool-cases p.line_comment) [
  | inl h ↦ simp (h, step) (in_line_comment-IsRound p c s)
  | inr h ↦ elim (Bool-cases p.block_comment) [
    | inl b ↦ simp (h, b, step) (in_block_comment-IsRound p c s)
    | inr b ↦ elim (Option-cases p.quote) [
      | inr (q, f) ↦ simp (h, b, f, step) (in_quote-IsRound p q c s)
      | inl f ↦ simp (h, b, f, step) (in_code-IsRound p c s e)
    ]
  ]
]
