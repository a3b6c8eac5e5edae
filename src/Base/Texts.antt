-- ===== src/Base/Texts.antt =====
-- Go's `strings` functions, over the characters of a text. A text is valid UTF-8; the program looks for
-- ASCII characters alone, so a walk over characters and one over bytes find the same places.
use Prim.Native.Nat.{ℕ, ◌+◌}
use Prim.Native.Char.{Char, code}
use Prim.Native.String.{String, ◌++◌ as ◌<>◌}
use Prim.Native.String.append
use mathlib.Core.Bool.{Bool, true, false, ◌&&◌, ◌||◌}
use mathlib.Core.List.{List, [], ◌∷◌, ◌++◌, map}
use mathlib.Core.Option
use mathlib.Core.Option.{Option, none, some}
use mathlib.Core.Logic.{inl, inr}
use native.Mathlib.Omega.{arith}
use mathlib.Core.Path.{◌≡◌, refl, ap, sym, ◌∙◌}
use zabbix_docker.Base.Tests.{
  leb, Bool-cases, Option-cases, ◌==◌, nat_eq, char_eq, char_eq_iff, list_eq, list_beq,
  if◌then◌else◌,
}
use zabbix_docker.Base.Lists.{is_empty}

abbrev pub Text : Type 0
Text = List Char

unfoldable pub chars : String → Text
chars String.[] = []
chars (String.◌∷◌ c s) = c ∷ chars s

unfoldable pub of_text : Text → String
of_text [] = String.[]
of_text (c ∷ s) = String.◌∷◌ c (of_text s)

pub of_text-chars : (s : String) → of_text (chars s) ≡ s
unfolding of_text chars
of_text-chars String.[] = refl
of_text-chars (String.◌∷◌ c s) = ap (String.◌∷◌ c) (of_text-chars s)

pub chars-of_text : (s : Text) → chars (of_text s) ≡ s
unfolding of_text chars
chars-of_text [] = refl
chars-of_text (c ∷ s) = ap (◌∷◌ c) (chars-of_text s)

-- `c == 'x'`, by the character's number.
abbrev pub is_code : ℕ → Char → Bool
is_code n c = code c == n

abbrev between : ℕ → ℕ → ℕ → Bool
between lo hi n = leb lo n && leb n hi

-- `unicode.IsSpace`, which `strings.TrimSpace` and `strings.Fields` use.
unfoldable pub is_space : Char → Bool
is_space c =
    let n = code c in
    between 9 13 n
    || n == 0x20
    || n == 0x85
    || n == 0xA0
    || n == 0x1680
    || between 0x2000 0x200A n
    || n == 0x2028
    || n == 0x2029
    || n == 0x202F
    || n == 0x205F
    || n == 0x3000

module _ (p : Char → Bool) where
  unfoldable pub trim_left : Text → Text
  trim_left [] = []
  trim_left (c ∷ s) = let rest = trim_left s in if p c then rest else c ∷ s

  unfoldable pub trim_right : Text → Text
  unfolding is_empty
  trim_right [] = []
  trim_right (c ∷ s) = let rest = trim_right s in if p c && is_empty rest then [] else c ∷ rest

  -- `strings.Trim`
  unfoldable pub trim : Text → Text
  unfolding trim_left trim_right
  trim s = trim_right (trim_left s)

unfoldable pub trim_space : Text → Text
unfolding trim is_space
trim_space = trim is_space

-- `strings.CutPrefix`: what follows the prefix.
unfoldable pub cut_prefix : Text → Text → Option Text
cut_prefix s [] = some s
cut_prefix [] (d ∷ prefix) = none
cut_prefix (c ∷ s) (d ∷ prefix) = if c == d then cut_prefix s prefix else none

abbrev pub is_some {ℓ} : {A : Type ℓ} → Option A → Bool
is_some none = false
is_some (some _) = true

-- `strings.HasPrefix`
unfoldable pub has_prefix : Text → Text → Bool
unfolding cut_prefix
has_prefix s prefix = is_some (cut_prefix s prefix)

-- `strings.CutSuffix`: what stands before the suffix.
unfoldable pub cut_suffix : Text → Text → Option Text
unfolding list_beq
cut_suffix [] suffix = if [] == suffix then some [] else none
cut_suffix (c ∷ s) suffix =
    let rest = Option.map (◌∷◌ c) (cut_suffix s suffix) in
    if (c ∷ s) == suffix then some [] else rest

unfoldable pub has_suffix : Text → Text → Bool
unfolding cut_suffix
has_suffix s suffix = is_some (cut_suffix s suffix)

-- `strings.TrimSuffix`
unfoldable pub trim_suffix : Text → Text → Text
unfolding cut_suffix
trim_suffix s suffix = elim (cut_suffix s suffix) [ none ↦ s | some t ↦ t ]

-- `strings.TrimPrefix`
unfoldable pub trim_prefix : Text → Text → Text
unfolding cut_prefix
trim_prefix s prefix = elim (cut_prefix s prefix) [ none ↦ s | some t ↦ t ]

abbrev pub cons_head : Char → List Text → List Text
cons_head c [] = (c ∷ []) ∷ []
cons_head c (s ∷ ss) = (c ∷ s) ∷ ss

-- `strings.Split` at a one-character separator: one part more than there are separators.
unfoldable pub split_on : ℕ → Text → List Text
split_on sep [] = [] ∷ []
split_on sep (c ∷ s) =
    let rest = split_on sep s in if is_code sep c then [] ∷ rest else cons_head c rest

-- `strings.Cut` at a one-character separator.
unfoldable pub cut : ℕ → Text → Option (Text × Text)
cut sep [] = none
cut sep (c ∷ s) =
    let rest = Option.map (λ ((a, b) : Text × Text). (c ∷ a, b)) (cut sep s) in
    if is_code sep c then some ([], s) else rest

-- `strings.Count` of one character.
unfoldable pub count_code : ℕ → Text → ℕ
count_code n [] = 0
count_code n (c ∷ s) = (if is_code n c then 1 else 0) + count_code n s

-- `strings.Join`
unfoldable pub join : Text → List Text → Text
join sep [] = []
join sep (s ∷ []) = s
join sep (s ∷ t ∷ ss) = s ++ (sep ++ join sep (t ∷ ss))

-- The lower-case number of a character, as `strings.ToLower` maps it. The program compares the result
-- with ASCII words alone: beside A-Z, the letters U+0130 and U+212A are mapped to ASCII.
abbrev pub lower_code : Char → ℕ
lower_code c =
    let n = code c in
    if between b'A' b'Z' n
    then n + 32
    else if n == 0x130
    then b'i'
    else if n == 0x212A
    then b'k'
    else n

-- The folding of `strings.EqualFold` against an ASCII word: U+017F folds to s, U+212A to k.
abbrev pub fold_code : Char → ℕ
fold_code c =
    let n = code c in
    if between b'A' b'Z' n
    then n + 32
    else if n == 0x17F
    then b's'
    else if n == 0x212A
    then b'k'
    else n

-- `strings.ToLower(s) == word` for a word in lower-case ASCII.
unfoldable pub lower_is : Text → Text → Bool
unfolding list_beq
lower_is s word = map lower_code s == map code word

-- `strings.EqualFold(s, word)` for an ASCII word.
unfoldable pub equal_fold : Text → Text → Bool
unfolding list_beq
equal_fold s word = map fold_code s == map fold_code word

pub chars-append : (s t : String) → chars (s <> t) ≡ chars s ++ chars t
unfolding chars
chars-append String.[] t = rw append.nil
chars-append (String.◌∷◌ c s) t = rw append.cons (ap (◌∷◌ c) (chars-append s t))

pub of_text-append : (s t : Text) → of_text (s ++ t) ≡ of_text s <> of_text t
unfolding of_text
of_text-append [] t = rw append.nil
of_text-append (c ∷ s) t = rw append.cons (ap (String.◌∷◌ c) (of_text-append s t))

-- A text with no separator in front of the first one is cut there.
pub cut-append :
    (sep : ℕ) (c : Char) (s t : Text)
    → is_code sep c ≡ true
    → count_code sep s ≡ 0
    → cut sep (s ++ (c ∷ t)) ≡ some (s, t)
unfolding cut count_code
cut-append sep c [] t h n = ground arith
cut-append sep c (d ∷ s) t h n = ground (arith, cut-append sep c s t h)

-- What `cut` returns in front holds no separator.
pub cut-count_code : (sep : ℕ) (s a b : Text) → cut sep s ≡ some (a, b) → count_code sep a ≡ 0
unfolding cut count_code
cut-count_code sep [] a b h = cc
cut-count_code sep (c ∷ s) a b h = elim (Bool-cases (is_code sep c)) [
  | inl t ↦ ground arith
  | inr f ↦ elim (Option-cases (cut sep s)) [
    | inl e ↦ ground arith
    | inr (p, e) ↦ ground (arith, cut-count_code sep s p.0 p.1)
  ]
]

pub cut_prefix-eq : (s prefix rest : Text) → cut_prefix s prefix ≡ some rest → s ≡ prefix ++ rest
unfolding cut_prefix
cut_prefix-eq s [] rest h = cc
cut_prefix-eq [] (d ∷ prefix) rest h = cc
cut_prefix-eq (c ∷ s) (d ∷ prefix) rest h = elim (Bool-cases (c == d)) [
  | inl same ↦ cc ((char_eq_iff c d).0 same, cut_prefix-eq s prefix rest (rw same at h))
  | inr differ ↦ ground arith
]

pub cut_prefix-append : (prefix rest : Text) → cut_prefix (prefix ++ rest) prefix ≡ some rest
unfolding cut_prefix
cut_prefix-append [] rest = refl
cut_prefix-append (d ∷ prefix) rest = rw ((char_eq_iff d d).1 refl) (cut_prefix-append prefix rest)

-- The same over strings.
pub cut_prefix-string :
    (s prefix : String) (rest : Text)
    → cut_prefix (chars s) (chars prefix) ≡ some rest
    → s ≡ prefix <> of_text rest
cut_prefix-string s prefix rest h =
    sym (of_text-chars s)
    ∙ ap of_text (cut_prefix-eq (chars s) (chars prefix) rest h)
    ∙ of_text-append (chars prefix) rest
    ∙ ap (λ t. t <> of_text rest) (of_text-chars prefix)

pub has_prefix-append : (prefix rest : Text) → has_prefix (prefix ++ rest) prefix ≡ true
unfolding has_prefix
has_prefix-append prefix rest = rw (cut_prefix-append prefix rest)

pub trim_prefix-append : (prefix rest : Text) → trim_prefix (prefix ++ rest) prefix ≡ rest
unfolding trim_prefix
trim_prefix-append prefix rest = rw (cut_prefix-append prefix rest, trim_prefix)
