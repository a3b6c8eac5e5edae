-- ===== src/Base/Replace/Quoting.antt =====
-- A text in quotes, where a quote inside is doubled, and how it is read back.
use zabbix_docker.Base.{
  ℕ, Char, code, ◌≡◌, refl, sym, ap, ◌∙◌, inl, inr, Bool, true, false, Option, none, some, [], ◌∷◌,
  ◌++◌, if◌then◌else◌, Bool-cases, char_eq_iff, nat_eq, char_eq, string_eq, list_eq, beq_refl, Text,
  chars, of_text, chars-of_text, is_code, char_eq_iff,
}
use mathlib.Core.Option
use zabbix_docker.Base.Lists.{append-snoc}
use zabbix_docker.Base.Replace.{replace_all}

-- What a reader of such a text takes: the text up to the quote that ends it, and what follows. The flag
-- says that the last character was a quote.
unfoldable pub unquote_from : ℕ → Bool → Text → Option (Text × Text)
unquote_from q false [] = none
unquote_from q true [] = some ([], [])
unquote_from q false (c ∷ s) =
    let inside = Option.map (λ ((a, b) : Text × Text). (c ∷ a, b)) (unquote_from q false s) in
    let ended = unquote_from q true s in if is_code q c then ended else inside
unquote_from q true (c ∷ s) =
    let inside = Option.map (λ ((a, b) : Text × Text). (c ∷ a, b)) (unquote_from q false s) in
    if is_code q c then inside else some ([], c ∷ s)

unfoldable pub unquote : ℕ → Text → Option (Text × Text)
unquote q [] = none
unquote q (c ∷ s) = if is_code q c then unquote_from q false s else none

-- The text does not start with the quote.
abbrev pub NotQuote : ℕ → Text → Type 0
NotQuote q [] = Unit
NotQuote q (c ∷ s) = is_code q c ≡ false

unquote_from-end :
    (q : ℕ) (rest : Text) → NotQuote q rest → unquote_from q true rest ≡ some ([], rest)
unfolding unquote_from
unquote_from-end q [] n = refl
unquote_from-end q (c ∷ rest) n = rw n

unquote_from-replace_all :
    (quote : Char) (s rest : Text)
    → NotQuote (code quote) rest
    → unquote_from
        (code quote)
        false
        (replace_all (code quote) (quote ∷ quote ∷ []) s ++ (quote ∷ rest))
      ≡ some (s, rest)
unfolding unquote_from replace_all
unquote_from-replace_all quote [] rest n =
    rw (beq_refl (code quote), unquote_from) (unquote_from-end (code quote) rest n)
unquote_from-replace_all quote (c ∷ s) rest n = elim (Bool-cases (is_code (code quote) c)) [
  | inl same ↦
      rw (same, replace_all)
        (rw (beq_refl (code quote), unquote_from)
          (rw (unquote_from-replace_all quote s rest n)
            (ap (λ (d : Char). some (d ∷ s, rest)) (sym ((char_eq_iff c quote).0 same)))))
  | inr other ↦
      rw (other, replace_all)
        (rw (other, unquote_from) (rw (unquote_from-replace_all quote s rest n)))
]

unquote-replace_all :
    (quote : Char) (s rest : Text)
    → NotQuote (code quote) rest
    → unquote
        (code quote)
        (quote ∷ (replace_all (code quote) (quote ∷ quote ∷ []) s ++ (quote ∷ rest)))
      ≡ some (s, rest)
unfolding unquote
unquote-replace_all quote s rest n =
    rw (beq_refl (code quote), unquote) (unquote_from-replace_all quote s rest n)

-- The same for a string in quotes, with what follows it.
pub unquote-quoted :
    (quote : Char) (s rest : Text)
    → NotQuote (code quote) rest
    → unquote (code quote) (
        chars (of_text (quote ∷ (replace_all (code quote) (quote ∷ quote ∷ []) s ++ (quote ∷ []))))
        ++ rest)
      ≡ some (s, rest)
unquote-quoted quote s rest n =
    let body = replace_all (code quote) (quote ∷ quote ∷ []) s in
    ap (λ (t : Text). unquote (code quote) (t ++ rest))
      (chars-of_text (quote ∷ (body ++ (quote ∷ []))))
    ∙ ap (λ (t : Text). unquote (code quote) (quote ∷ t)) (append-snoc body rest quote)
    ∙ unquote-replace_all quote s rest n
