-- ===== src/Config/Parameters/Merging.antt =====
-- `MergeParameterValues`, which runs `rewriteParameter` with the old lines kept.
use zabbix_docker.Base.{
  ℕ, ◌≡◌, refl, sym, ap, ◌∙◌, inl, inr, Bool, true, false, Option, none, some, List, [], ◌∷◌, ◌++◌,
  map, arith, Bool-cases, nat_eq, char_eq, string_eq, list_eq, contains, beq_refl, is_empty, select,
  take-append-drop, select-none, In, here, there, All-of_In, Text, trim_prefix-append,
}
use mathlib.Core.List.{append-nil, append_assoc, map-append}
use zabbix_docker.Config.Parameters.{
  active_prefix, is_active, Scan, scan_start, scan_line, scan_lines, is_new, param_lines,
  place_lines, rewrite_lines,
}
use zabbix_docker.Config.Parameters.Scanning.{strip, scan_lines-IsScan}
use zabbix_docker.Config.Parameters.Rewriting.{rewrite_lines-actives}

scan_line-keeps :
    (param : Text) (s : Scan) (line : Text)
    → (scan_line param true s line).updated ≡ s.updated ++ (line ∷ [])
unfolding scan_line
scan_line-keeps param s line = ground arith

scan_lines-keeps_from :
    (param : Text) (s : Scan) (lines : List Text)
    → (scan_lines param true s lines).updated ≡ s.updated ++ lines
unfolding scan_lines
scan_lines-keeps_from param s [] = sym (append-nil s.updated)
scan_lines-keeps_from param s (line ∷ lines) =
    scan_lines-keeps_from param (scan_line param true s line) lines
    ∙ ap (λ updated. updated ++ lines) (scan_line-keeps param s line)
    ∙ append_assoc s.updated (line ∷ []) lines

contains-append_left :
    (xs ys : List Text) (a : Text) → contains xs a ≡ true → contains (xs ++ ys) a ≡ true
unfolding contains
contains-append_left [] ys a h = ground arith
contains-append_left (x ∷ xs) ys a h = ground (arith, contains-append_left xs ys a)

contains-append_right :
    (xs ys : List Text) (a : Text) → contains ys a ≡ true → contains (xs ++ ys) a ≡ true
unfolding contains
contains-append_right [] ys a h = h
contains-append_right (x ∷ xs) ys a h = ground (arith, contains-append_right xs ys a h)

contains-select :
    (p : Text → Bool) {a : Text} {xs : List Text}
    → In a xs
    → p a ≡ true
    → contains (select p xs) a ≡ true
unfolding contains select
contains-select p {a} (here {x} {xs} e) h = rw (sym e) (rw h (rw (beq_refl a, contains)))
contains-select p {a} (there {x} {xs} m) h = ground (arith, contains-select p m h)

module _ (param : Text) where
  strip-line : (value : Text) → strip param (active_prefix param ++ value) ≡ value
  strip-line value = trim_prefix-append (active_prefix param) value

  map-strip :
      (values : List Text)
      → map (strip param) (map (λ value. active_prefix param ++ value) values) ≡ values
  map-strip [] = refl
  map-strip (v ∷ values) = cc (strip-line v, map-strip values)

  not_new_twice :
      (existing values : List Text) (v : Text)
      → In v values
      → is_new (existing ++ select (is_new existing) values) v ≡ false
  not_new_twice existing values v m = elim (Bool-cases (is_new existing v)) [
    | inl new ↦ ground (
      arith,
      contains-append_right existing (select (is_new existing) values) v
          (contains-select (is_new existing) m new),
    )
    | inr old ↦ ground (arith, contains-append_left existing (select (is_new existing) values) v)
  ]

  nothing_new :
      (existing values : List Text)
      → param_lines param (existing ++ select (is_new existing) values) values ≡ []
  unfolding param_lines
  nothing_new existing values = rw (
      select-none (is_new (existing ++ select (is_new existing) values)) values (
        All-of_In (λ v. is_new (existing ++ select (is_new existing) values) v ≡ false) values
          (not_new_twice existing values)))

  place_lines-none : (at_ : Option ℕ) (lines : List Text) → place_lines at_ lines [] ≡ lines
  unfolding place_lines is_empty
  place_lines-none none lines = refl
  place_lines-none (some n) lines = take-append-drop n lines

  rewrite_lines-none :
      (values lines : List Text)
      → param_lines param (map (strip param) (select (is_active param) lines)) values ≡ []
      → rewrite_lines param values true lines ≡ lines
  unfolding rewrite_lines
  rewrite_lines-none values lines h =
      let s = scan_lines param true scan_start lines in
      rw
        (
          (scan_lines-IsScan param true lines).existing,
          h,
          scan_lines-keeps_from param scan_start lines,
        )
        (place_lines-none s.insert_at lines)

  strip-param_lines :
      (existing values : List Text)
      → map (strip param) (param_lines param existing values) ≡ select (is_new existing) values
  unfolding param_lines
  strip-param_lines existing values = map-strip (select (is_new existing) values)

  -- Merging the same values a second time changes no line.
  pub rewrite_lines-idempotent :
      (values lines : List Text)
      → rewrite_lines param values true (rewrite_lines param values true lines)
        ≡ rewrite_lines param values true lines
  rewrite_lines-idempotent values lines =
      let old = map (strip param) (select (is_active param) lines) in
      rewrite_lines-none values (rewrite_lines param values true lines) (
        rw (rewrite_lines-actives param values true lines) (
          rw (map-append (strip param))
            (rw (strip-param_lines old values) (nothing_new old values))))
