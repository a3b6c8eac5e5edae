-- ===== src/Config/Parameters/Rewriting.antt =====
-- What `rewriteParameter` does to the lines of a file.
use zabbix_docker.Base.{
  ℕ, ◌≡◌, refl, sym, ap, ◌∙◌, ◌≢◌, ◌⊎◌, inl, inr, Bool, true, false, Option, none, some, List, [],
  ◌∷◌, ◌++◌, map, if◌then◌else◌, Bool-cases, nat_eq, char_eq, string_eq, list_eq, take, drop,
  is_empty, select, select-append, select-take-drop, select-All, select-none, All, Text, chars,
  cut_prefix, has_prefix, has_prefix-append,
}
use mathlib.Core.List.{append-nil, append_assoc}
use zabbix_docker.Config.Parameters.{
  active_prefix, is_active, scan_start, scan_lines, is_new, param_lines, ends_with_text,
  place_lines, rewrite_lines,
}
use zabbix_docker.Config.Parameters.Scanning.{is_other, Placed, strip, scan_lines-IsScan}

module _ (param : Text) where
  blank-is_active : is_active param [] ≡ false
  unfolding has_prefix cut_prefix chars
  blank-is_active = go param
    where
      go : (p : Text) → is_active p [] ≡ false
      go [] = refl
      go (c ∷ p) = refl

  added_active :
      (values : List Text)
      → All
          (λ line. is_active param line ≡ true)
          (map (λ value. active_prefix param ++ value) values)
  added_active [] = tt
  added_active (v ∷ values) = (has_prefix-append (active_prefix param) v, added_active values)

  added_other :
      (values : List Text)
      → All
          (λ line. is_other param line ≡ false)
          (map (λ value. active_prefix param ++ value) values)
  added_other [] = tt
  added_other (v ∷ values) = (rw (has_prefix-append (active_prefix param) v), added_other values)

  -- What stands between the old lines and those appended.
  abbrev separated : List Text → List Text
  separated updated = if ends_with_text updated then updated ++ ([] ∷ []) else updated

  select-separated :
      (updated : List Text)
      → select (is_active param) (separated updated) ≡ select (is_active param) updated
  unfolding select
  select-separated updated = elim (Bool-cases (ends_with_text updated)) [
    | inl t ↦ rw t (
        rw (select-append (is_active param) updated ([] ∷ []))
          (rw blank-is_active (append-nil (select (is_active param) updated))))
    | inr f ↦ rw f
  ]

  place_lines-actives :
      (at_ : Option ℕ) (updated added : List Text)
      → Placed param at_ updated
      → All (λ line. is_active param line ≡ true) added
      → select (is_active param) (place_lines at_ updated added)
        ≡ select (is_active param) updated ++ added
  unfolding place_lines is_empty
  place_lines-actives (some n) updated added (below, behind) a =
      rw (select-append (is_active param) (take n updated) (added ++ drop n updated)) (
        rw
          (
            select-append (is_active param) added (drop n updated),
            select-All (is_active param) added a,
          )
          (rw (select-take-drop (is_active param) n updated)
            (rw behind (rw (append-nil, append-nil)))))
  place_lines-actives none updated [] (p, _) a = sym (append-nil _)
  place_lines-actives none updated (v ∷ added) (p, _) a =
      rw (select-append (is_active param) (separated updated) (v ∷ added), place_lines)
        (rw (select-separated updated, select-All (is_active param) (v ∷ added) a))

  ends_with_text-split :
      (lines : List Text)
      → ends_with_text lines ≡ true
      → (front : List Text) × (last : Text) × (lines ≡ front ++ (last ∷ [])) × (last ≢ [])
  unfolding ends_with_text is_empty
  ends_with_text-split [] h = cc
  ends_with_text-split ([] ∷ []) h = cc
  ends_with_text-split ((c ∷ line) ∷ []) h = ([], c ∷ line, refl, λ e. cc e)
  ends_with_text-split (line ∷ next ∷ lines) h =
      let (front, last, e, n) = ends_with_text-split (next ∷ lines) h in
      (line ∷ front, last, ap (◌∷◌ line) e, n)

  select-is_other :
      (lines : List Text)
      → select (is_active param) lines ≡ []
      → select (is_other param) lines ≡ lines
  unfolding select
  select-is_other [] h = refl
  select-is_other (line ∷ lines) h = elim (Bool-cases (is_active param line)) [
    | inl t ↦ absurd (cc (rw (t, select) at h))
    | inr f ↦ rw (f, select) (ap (◌∷◌ line) (select-is_other lines (rw (f, select) at h)))
  ]

  -- Lines that end with one that is not empty, then a blank line, then new lines for the parameter.
  abbrev pub IsSeparated : List Text → List Text → Type 0
  IsSeparated others result =
      (front : List Text) × (last : Text) × (added : List Text) × (others ≡ front ++ (last ∷ []))
      × (last ≢ [])
      × (added ≢ [])
      × All (λ line. is_active param line ≡ true) added
      × (result ≡ others ++ ([] ∷ added))

  place_lines-others :
      (at_ : Option ℕ) (updated added : List Text)
      → Placed param at_ updated
      → All (λ line. is_other param line ≡ false) added
      → All (λ line. is_active param line ≡ true) added
      → (select (is_other param) (place_lines at_ updated added) ≡ select (is_other param) updated)
        ⊎ IsSeparated (select (is_other param) updated) (place_lines at_ updated added)
  unfolding place_lines is_empty select
  place_lines-others (some n) updated added p a b = inl (
      rw (select-append (is_other param) (take n updated) (added ++ drop n updated)) (
        rw
          (
            select-append (is_other param) added (drop n updated),
            select-none (is_other param) added a,
          )
          (sym (select-take-drop (is_other param) n updated))))
  place_lines-others none updated [] p a b = inl refl
  place_lines-others none updated (v ∷ added) (p, _) a b =
      elim (Bool-cases (ends_with_text updated)) [
        | inl t ↦
            let (front, last, e, n) = ends_with_text-split updated t in
            let whole = select-is_other updated p in
            inr (
              front,
              last,
              v ∷ added,
              whole ∙ e,
              n,
              λ empty. cc empty,
              b,
              rw (t, place_lines, whole) (append_assoc updated ([] ∷ []) (v ∷ added)),
            )
        | inr f ↦ inl (
            rw (f, place_lines)
              (rw
                (
                  select-append (is_other param) updated (v ∷ added),
                  select-none (is_other param) (v ∷ added) a,
                )
                (append-nil _)))
      ]

  -- The lines that set the parameter and that the rewriting keeps.
  abbrev pub kept_lines : Bool → List Text → List Text
  kept_lines preserve lines = if preserve then select (is_active param) lines else []

  map-kept_lines :
      (preserve : Bool) (lines : List Text)
      → (if preserve then map (strip param) (select (is_active param) lines) else [])
        ≡ map (strip param) (kept_lines preserve lines)
  map-kept_lines true lines = refl
  map-kept_lines false lines = refl

  pub rewrite_lines-actives :
      (values : List Text) (preserve : Bool) (lines : List Text)
      → select (is_active param) (rewrite_lines param values preserve lines)
        ≡ kept_lines preserve lines
          ++ param_lines param (map (strip param) (kept_lines preserve lines)) values
  unfolding rewrite_lines param_lines
  rewrite_lines-actives values preserve lines =
      let s = scan_lines param preserve scan_start lines in
      let h = scan_lines-IsScan param preserve lines in
      place_lines-actives s.insert_at s.updated (param_lines param s.existing values) h.placed
        (added_active (select (is_new s.existing) values))
      ∙ rw (h.actives, h.existing ∙ map-kept_lines preserve lines)

  -- The rewriting keeps every line that does not set the parameter, in order, and adds none; or it gives
  -- these lines, of which the last is not empty, then one blank line, then lines that set the parameter, of
  -- which there is at least one.
  pub rewrite_lines-others :
      (values : List Text) (preserve : Bool) (lines : List Text)
      → (select (is_other param) (rewrite_lines param values preserve lines)
          ≡ select (is_other param) lines)
        ⊎ IsSeparated (select (is_other param) lines) (rewrite_lines param values preserve lines)
  unfolding rewrite_lines param_lines
  rewrite_lines-others values preserve lines =
      let s = scan_lines param preserve scan_start lines in
      let h = scan_lines-IsScan param preserve lines in
      rw h.others at (
        place_lines-others s.insert_at s.updated (param_lines param s.existing values) h.placed
          (added_other (select (is_new s.existing) values))
          (added_active (select (is_new s.existing) values)))
