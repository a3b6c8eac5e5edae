-- ===== src/Bootstrap/Indexed/Suffix.antt =====
-- Which prefix `indexedSuffix` finds when the longest ones are tried first.
use mathlib.Core.List.{append_assoc as list_append_assoc}
use text.Mathlib.TextLemmas.{append_assoc}
use zabbix_docker.Base.{
  ℕ, ◌≤◌, Char, String, ◌<>◌, ◌≡◌, refl, sym, ap, ◌∙◌, ◌≢◌, inl, inr, false, some, List, [], ◌∷◌,
  ◌++◌, arith, Bool-cases, Option-cases, nat_eq, char_eq, string_eq, list_eq, length, All, All-In,
  In, here, there, Text, chars, of_text, of_text-chars, chars-of_text, chars-append, cut_prefix,
  cut_prefix-eq, cut_prefix-append,
}
use zabbix_docker.Base.Decimal.{is_digit, digits_value, itoa}
use zabbix_docker.Base.Decimal.RoundTrip.{digits_value-itoa}
use zabbix_docker.Base.Sort.{sort, In-sort, IsOrdered, sort-IsOrdered}
use zabbix_docker.Bootstrap.Indexed.{indexed_name, indexed_suffix, longer}

abbrev underscore : Char
underscore = "_"

abbrev NoUnderscore : Text → Type 0
NoUnderscore = All (λ (c : Char). c ≢ underscore)

digits_value-NoUnderscore : (s : Text) (n m : ℕ) → digits_value s n ≡ some m → NoUnderscore s
unfolding digits_value
digits_value-NoUnderscore [] n m h = tt
digits_value-NoUnderscore (c ∷ s) n m h = elim (Bool-cases (is_digit c)) [
  | inl d ↦ (λ same. cc (rw same at d), digits_value-NoUnderscore s _ m (rw (d, digits_value) at h))
  | inr f ↦ absurd (cc (rw (f, digits_value) at h))
]

not_inside : {A : Type 0} (q rest : Text) → NoUnderscore (q ++ (underscore ∷ rest)) → A
not_inside [] rest (n, _) = absurd (n refl)
not_inside (c ∷ q) rest (_, n) = not_inside q rest n

-- Of two ways to write a text as a part, an underscore and a rest, with no underscore in the one rest, the
-- part is the same where it is not the shorter one.
same_parts :
    (q p rest digits : Text)
    → q ++ (underscore ∷ rest) ≡ p ++ (underscore ∷ digits)
    → NoUnderscore digits
    → length p ≤ length q
    → (q ≡ p) × (rest ≡ digits)
same_parts [] [] rest digits e n l = (refl, cc e)
same_parts [] (d ∷ p) rest digits e n l = absurd (omega arith)
same_parts (c ∷ q) [] rest digits e n l =
    let inside : digits ≡ q ++ (underscore ∷ rest) = cc e in not_inside q rest (rw inside at n)
same_parts (c ∷ q) (d ∷ p) rest digits e n l =
    let (same, same') = same_parts q p rest digits (cc e) n (omega arith) in
    let first : c ≡ d = cc e in (cc (first, same), same')

chars-underscore :
    (prefix : String) (rest : Text)
    → chars (prefix <> "_") ++ rest ≡ chars prefix ++ (underscore ∷ rest)
unfolding chars
chars-underscore prefix rest =
    rw (chars-append prefix "_") (list_append_assoc (chars prefix) (underscore ∷ []) rest)

-- The name as the prefix, the underscore and the digits.
indexed_name-chars :
    (prefix : String) (index : ℕ)
    → chars (indexed_name prefix index) ≡ chars (prefix <> "_") ++ itoa index
unfolding indexed_name
indexed_name-chars prefix index =
    ap chars (sym (append_assoc prefix "_" (of_text (itoa index))))
    ∙ chars-append (prefix <> "_") (of_text (itoa index))
    ∙ ap (◌++◌ (chars (prefix <> "_"))) (chars-of_text (itoa index))

-- A prefix that fits and is not shorter is the same one.
same_prefix :
    (q prefix : String) (index : ℕ) (rest : Text)
    → length (chars prefix) ≤ length (chars q)
    → cut_prefix (chars (indexed_name prefix index)) (chars (q <> "_")) ≡ some rest
    → (q ≡ prefix) × (rest ≡ itoa index)
same_prefix q prefix index rest l h =
    let (same, digits) =
      same_parts (chars q) (chars prefix) rest (itoa index)
        (sym (chars-underscore q rest)
          ∙ sym (cut_prefix-eq _ (chars (q <> "_")) rest h)
          ∙ indexed_name-chars prefix index
          ∙ chars-underscore prefix (itoa index))
        (digits_value-NoUnderscore (itoa index) 0 index (digits_value-itoa index)) l in
    (sym (of_text-chars q) ∙ ap of_text same ∙ of_text-chars prefix, digits)

indexed_suffix-ordered :
    (prefix : String) (index : ℕ) (ordered : List String)
    → IsOrdered longer ordered
    → In prefix ordered
    → indexed_suffix (indexed_name prefix index) ordered ≡ some (prefix, of_text (itoa index))
unfolding indexed_suffix IsOrdered
indexed_suffix-ordered prefix index [] o m = elim m [ ]
indexed_suffix-ordered prefix index (q ∷ ordered) (below, o) (here same) =
    rw
      (
        ← same,
        indexed_name-chars prefix index,
        cut_prefix-append (chars (prefix <> "_")) (itoa index),
        indexed_suffix,
      )
      (ap (λ (p : String). some (p, of_text (itoa index))) (sym same))
indexed_suffix-ordered prefix index (q ∷ ordered) (below, o) (there m) =
    elim (Option-cases (cut_prefix (chars (indexed_name prefix index)) (chars (q <> "_")))) [
      | inl e ↦ rw (e, indexed_suffix) (indexed_suffix-ordered prefix index ordered o m)
      | inr (rest, e) ↦
          let longest = All-In (λ (p : String). longer p q ≡ false) m below in
          let (same, digits) = same_prefix q prefix index rest (ground arith) e in
          rw (e, indexed_suffix, same, digits) refl
    ]

-- With the longest prefix first, a name that is made of a prefix of the list and an index is split there.
pub indexed_suffix-indexed_name :
    (prefix : String) (index : ℕ) (prefixes : List String)
    → In prefix prefixes
    → indexed_suffix (indexed_name prefix index) (sort longer prefixes)
      ≡ some (prefix, of_text (itoa index))
indexed_suffix-indexed_name prefix index prefixes m =
    indexed_suffix-ordered prefix index (sort longer prefixes)
      (sort-IsOrdered longer (λ s t h. ground arith) (λ s t u h h'. ground arith) prefixes)
      (In-sort longer m)
