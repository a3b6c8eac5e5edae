-- ===== src/Config/Parameters/LineBreaks.antt =====
-- The lines of a file, read back after they are written.
use zabbix_docker.Base.{
  ℕ, ◌+◌, Char, ◌≡◌, refl, ap, ◌∙◌, inl, inr, true, false, some, List, [], ◌∷◌, ◌++◌, arith,
  Bool-cases, nat_eq, char_eq, string_eq, list_eq, list_beq, All, Text, chars, is_code, cut_suffix,
  trim_suffix, split_on, count_code, join,
}
use zabbix_docker.Config.Parameters.{replace_crlf, lines_of, content_of}

-- A line holds no line break of its own.
abbrev pub IsLine : Text → Type 0
IsLine line = (count_code b'\n' line ≡ 0) × (count_code b'\r' line ≡ 0)

replace_crlf-none : (s : Text) → count_code b'\r' s ≡ 0 → replace_crlf s ≡ s
unfolding replace_crlf count_code
replace_crlf-none [] h = refl
replace_crlf-none (c ∷ s) h = elim (Bool-cases (is_code b'\r' c)) [
  | inl r ↦ absurd (ground arith)
  | inr r ↦ rw r (ap (◌∷◌ c) (replace_crlf-none s (ground arith)))
]

list_beq-single : (c : Char) (s : Text) → list_beq (s ++ (c ∷ [])) [] ≡ false
unfolding list_beq
list_beq-single c [] = refl
list_beq-single c (d ∷ s) = refl

cut_suffix-one : (c : Char) (s : Text) → cut_suffix (s ++ (c ∷ [])) (c ∷ []) ≡ some s
unfolding cut_suffix list_beq
cut_suffix-one c [] = ground arith
cut_suffix-one c (d ∷ s) = rw (list_beq-single c s, cut_suffix) (ground (arith, cut_suffix-one c s))

count_code-append : (n : ℕ) (s t : Text) → count_code n (s ++ t) ≡ count_code n s + count_code n t
unfolding count_code
count_code-append n [] t = omega arith
count_code-append n (c ∷ s) t = omega (arith, count_code-append n s t)

split_on-free : (sep : ℕ) (s : Text) → count_code sep s ≡ 0 → split_on sep s ≡ s ∷ []
unfolding split_on count_code
split_on-free sep [] h = refl
split_on-free sep (c ∷ s) h = elim (Bool-cases (is_code sep c)) [
  | inl r ↦ absurd (ground arith)
  | inr r ↦ rw r (rw (split_on-free sep s (ground arith)))
]

split_on-first :
    (sep : ℕ) (s : Text) (c : Char) (t : Text)
    → count_code sep s ≡ 0
    → is_code sep c ≡ true
    → split_on sep (s ++ (c ∷ t)) ≡ s ∷ split_on sep t
unfolding split_on count_code
split_on-first sep [] c t h r = rw (r, split_on)
split_on-first sep (d ∷ s) c t h r = elim (Bool-cases (is_code sep d)) [
  | inl q ↦ absurd (ground arith)
  | inr q ↦ rw (q, split_on) (rw (split_on-first sep s c t (ground arith) r))
]

split_on-join :
    (line : Text) (lines : List Text)
    → All IsLine (line ∷ lines)
    → split_on b'\n' (join (chars "\n") (line ∷ lines)) ≡ line ∷ lines
unfolding join chars
split_on-join line [] ((h, _), _) = split_on-free b'\n' line h
split_on-join line (next ∷ lines) ((h, _), hs) =
    split_on-first b'\n' line "\n" (join (chars "\n") (next ∷ lines)) h refl
    ∙ ap (◌∷◌ line) (split_on-join next lines hs)

no_return : (lines : List Text) → All IsLine lines → count_code b'\r' (join (chars "\n") lines) ≡ 0
unfolding join chars count_code
no_return [] _ = refl
no_return (line ∷ []) ((_, h), _) = h
no_return (line ∷ next ∷ lines) ((_, h), hs) = omega (
  arith,
  count_code-append b'\r' line (chars "\n" ++ join (chars "\n") (next ∷ lines)),
  no_return (next ∷ lines) hs,
)

-- The lines that are written are the lines that are read back, when there is one at least and none holds
-- a line break.
pub lines_of-content_of :
    (line : Text) (lines : List Text)
    → All IsLine (line ∷ lines)
    → lines_of (content_of (line ∷ lines)) ≡ line ∷ lines
unfolding lines_of content_of trim_suffix chars count_code
lines_of-content_of line lines h =
    let whole = join (chars "\n") (line ∷ lines) in
    rw
      (replace_crlf-none (whole ++ chars "\n")
        (omega (arith, count_code-append b'\r' whole (chars "\n"), no_return (line ∷ lines) h)))
      (rw (cut_suffix-one "\n" whole, trim_suffix) (split_on-join line lines h))
