-- ===== src/Storageprovider/Options/Quoted.antt =====
-- The quoting of an option's value, and how it is read back.
use zabbix_docker.Base.{
  Char, ◌≡◌, refl, sym, ap, ◌∙◌, inl, inr, Bool, true, false, Option, none, some, [], ◌∷◌, ◌++◌,
  if◌then◌else◌, Bool-cases, char_eq_iff, nat_eq, char_eq, string_eq, list_eq, Text, chars, is_code,
  char_eq_iff,
}
use mathlib.Core.Option
use zabbix_docker.Base.Lists.{append-snoc}
use zabbix_docker.Base.Replace.{replace_all}
use zabbix_docker.Storageprovider.Options.{quote_option}

-- What a reader takes: a backslash keeps the character behind it, and a quote ends the value. The flag says
-- that a backslash came last.
unfoldable pub unescape_from : Bool → Text → Option (Text × Text)
unescape_from escaped [] = none
unescape_from true (c ∷ s) =
    Option.map (λ ((a, b) : Text × Text). (c ∷ a, b)) (unescape_from false s)
unescape_from false (c ∷ s) =
    let inside = Option.map (λ ((a, b) : Text × Text). (c ∷ a, b)) (unescape_from false s) in
    let escape = unescape_from true s in
    if is_code b'"' c then some ([], s) else if is_code b'\\' c then escape else inside

unfoldable pub read_option : Text → Option (Text × Text)
read_option [] = none
read_option (c ∷ s) = if is_code b'"' c then unescape_from false s else none

abbrev escaped : Text → Text
escaped s = replace_all b'"' (chars "\\\"") (replace_all b'\\' (chars "\\\\") s)

unescape_from-escaped :
    (s rest : Text) → unescape_from false (escaped s ++ ("\"" ∷ rest)) ≡ some (s, rest)
unfolding unescape_from replace_all chars
unescape_from-escaped [] rest = refl
unescape_from-escaped (c ∷ s) rest = elim (Bool-cases (is_code b'\\' c)) [
  | inl slash ↦
      rw (slash, replace_all)
        (rw (unescape_from-escaped s rest)
          (ap (λ (d : Char). some (d ∷ s, rest)) (sym ((char_eq_iff c "\\").0 slash))))
  | inr other ↦ elim (Bool-cases (is_code b'"' c)) [
    | inl quote ↦
        rw (other, replace_all)
          (rw (quote, replace_all)
            (rw (unescape_from-escaped s rest)
              (ap (λ (d : Char). some (d ∷ s, rest)) (sym ((char_eq_iff c "\"").0 quote)))))
    | inr plain ↦
        rw (other, replace_all)
          (rw (plain, replace_all)
            (rw (plain, unescape_from)
              (rw (other, unescape_from) (rw (unescape_from-escaped s rest)))))
  ]
]

-- A value in the quotes of quoteOption, whatever quotes and backslashes it holds, is read back as it was,
-- up to its last quote and no further, by a reader for which a backslash keeps the character behind it.
pub read_option-quote_option :
    (value rest : Text) → read_option (quote_option value ++ rest) ≡ some (value, rest)
unfolding read_option quote_option chars
read_option-quote_option value rest =
    ap (unescape_from false) (append-snoc (escaped value) rest "\"")
    ∙ unescape_from-escaped value rest
