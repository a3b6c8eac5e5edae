-- ===== src/Mysql/SqlScript/Comments.antt =====
-- How `write` reads a comment up to its end.
use zabbix_docker.Base.{
  Char, ◌≡◌, refl, ◌∙◌, inl, inr, Bool, true, false, ◌&&◌, ◌||◌, none, List, [], ◌∷◌, ◌++◌, arith,
  if◌then◌else◌, Bool-cases, nat_eq, char_eq, string_eq, list_eq, is_empty, Text, chars, is_code,
  cut_prefix, count_code,
}
use zabbix_docker.Mysql.SqlScript.{in_line_comment, in_block_comment, step, write}
use mathlib.Core.List.{append-nil, append_assoc}
use zabbix_docker.Mysql.SqlScript.Literals.{in_script, commented, write-step}

-- The text holds the end of a block comment.
unfoldable pub holds_end : Text → Bool
holds_end [] = false
holds_end (c ∷ []) = false
holds_end (c ∷ d ∷ s) = (is_code b'*' c && is_code b'/' d) || holds_end (d ∷ s)

cut_prefix-no_end :
    (c d : Char) (s : Text)
    → (is_code b'*' c && is_code b'/' d) ≡ false
    → cut_prefix (c ∷ d ∷ s) (chars "*/") ≡ none
unfolding cut_prefix chars
cut_prefix-no_end c d s h = ground arith

module _ (statements : List Text) where
  -- A line comment up to its end.
  pub write-line_comment :
      (statement body rest : Text)
      → count_code b'\n' body ≡ 0
      → write
          (record (in_script statement statements) { line_comment = true })
          (body ++ ("\n" ∷ rest))
        ≡ write (in_script (statement ++ chars "\n") statements) rest
  unfolding is_empty chars step in_line_comment count_code
  write-line_comment statement [] rest h =
      write-step (record (in_script statement statements) { line_comment = true }) "\n" rest refl
  write-line_comment statement (c ∷ body) rest h = elim (Bool-cases (is_code b'\n' c)) [
    | inl n ↦ absurd (ground arith)
    | inr n ↦
        write-step (record (in_script statement statements) { line_comment = true }) c
          (body ++ ("\n" ∷ rest)) refl
        ∙ rw n (write-line_comment statement body rest (ground arith))
  ]

  -- What is kept of a comment's text.
  abbrev kept : Bool → Text → Text
  kept keep body = if keep then body else []

  block_end :
      (keep : Bool) (statement rest : Text)
      → write (commented keep statement statements) ("*" ∷ "/" ∷ rest)
        ≡ write (in_script (statement ++ (if keep then chars "*/" else chars " ")) statements) rest
  unfolding is_empty chars step in_block_comment cut_prefix
  block_end keep statement rest =
      write-step (commented keep statement statements) "*" ("/" ∷ rest) refl

  block_character :
      (keep : Bool) (statement : Text) (c d : Char) (s : Text)
      → (is_code b'*' c && is_code b'/' d) ≡ false
      → write (commented keep statement statements) (c ∷ d ∷ s)
        ≡ write (commented keep (statement ++ kept keep (c ∷ [])) statements) (d ∷ s)
  unfolding is_empty chars step in_block_comment
  block_character true statement c d s h =
      write-step (commented true statement statements) c (d ∷ s) refl
      ∙ rw (cut_prefix-no_end c d s h, in_block_comment) refl
  block_character false statement c d s h =
      write-step (commented false statement statements) c (d ∷ s) refl
      ∙ rw (cut_prefix-no_end c d s h, in_block_comment) (rw (append-nil statement) refl)

  kept-cons :
      (keep : Bool) (statement : Text) (c : Char) (body tail : Text)
      → (statement ++ kept keep (c ∷ [])) ++ (kept keep body ++ tail)
        ≡ statement ++ (kept keep (c ∷ body) ++ tail)
  kept-cons true statement c body tail = append_assoc statement (c ∷ []) (body ++ tail)
  kept-cons false statement c body tail = rw (append-nil statement) refl

  pub write-block_comment :
      (keep : Bool) (statement body rest : Text)
      → holds_end body ≡ false
      → write (commented keep statement statements) (body ++ ("*" ∷ "/" ∷ rest))
        ≡ write
            (in_script
              (statement ++ (kept keep body ++ (if keep then chars "*/" else chars " ")))
              statements)
            rest
  unfolding holds_end
  write-block_comment true statement [] rest h = block_end true statement rest
  write-block_comment false statement [] rest h = block_end false statement rest
  write-block_comment keep statement (c ∷ []) rest h =
      block_character keep statement c "*" ("/" ∷ rest) (ground arith)
      ∙ write-block_comment keep (statement ++ kept keep (c ∷ [])) [] rest refl
      ∙ rw (kept-cons keep statement c [] (if keep then chars "*/" else chars " ")) refl
  write-block_comment keep statement (c ∷ d ∷ body) rest h =
      block_character keep statement c d (body ++ ("*" ∷ "/" ∷ rest)) (ground arith)
      ∙ write-block_comment keep (statement ++ kept keep (c ∷ [])) (d ∷ body) rest (ground arith)
      ∙ rw (kept-cons keep statement c (d ∷ body) (if keep then chars "*/" else chars " ")) refl
