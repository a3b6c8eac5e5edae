-- ===== src/Config/Parameters/Scanning.antt =====
-- The loop over the lines: what it keeps, and where it will insert.
use zabbix_docker.Base.{
  ℕ, ◌≤◌, ◌≡◌, refl, inl, inr, Bool, true, false, not, Option, none, some, List, [], ◌∷◌, ◌++◌, map,
  arith, if◌then◌else◌, Bool-cases, nat_eq, char_eq, string_eq, list_eq, length, drop, select,
  length-append, select-append, drop-append, drop-length, Text, trim_prefix,
}
use mathlib.Core.List.{append-nil, append_assoc, map-append}
use zabbix_docker.Config.Parameters.{
  active_prefix, is_active, is_comment, comment_position, Scan, scan_start, scan_line, scan_lines,
}

module _ (param : Text) where
  abbrev pub is_other : Text → Bool
  is_other line = not (is_active param line)

  -- Behind the place of insertion no line sets the parameter.
  abbrev pub Placed : Option ℕ → List Text → Type 0
  Placed none updated = (select (is_active param) updated ≡ []) × Unit {0}
  Placed (some n) updated = (n ≤ length updated) × (select (is_active param) (drop n updated) ≡ [])

  abbrev pub strip : Text → Text
  strip line = trim_prefix line (active_prefix param)

  -- What the loop knows after the lines `seen`.
  pub record IsScan (preserve : Bool) (seen : List Text) (s : Scan) : Type 0 where
    pub actives :
        select (is_active param) s.updated
        ≡ (if preserve then select (is_active param) seen else [])
    pub others : select is_other s.updated ≡ select is_other seen
    pub existing : s.existing ≡ (if preserve then map strip (select (is_active param) seen) else [])
    pub placed : Placed s.insert_at s.updated

  scan_line-others :
      (preserve : Bool) (seen : List Text) (s : Scan) (line : Text)
      → select is_other s.updated ≡ select is_other seen
      → select is_other (scan_line param preserve s line).updated
        ≡ select is_other (seen ++ (line ∷ []))
  unfolding scan_line select
  scan_line-others preserve seen s line h = ground (
    arith,
    select-append is_other seen (line ∷ []),
    select-append is_other s.updated (line ∷ []),
    append-nil (select is_other seen),
  )

  scan_line-actives :
      (preserve : Bool) (seen : List Text) (s : Scan) (line : Text)
      → select (is_active param) s.updated
        ≡ (if preserve then select (is_active param) seen else [])
      → select (is_active param) (scan_line param preserve s line).updated
        ≡ (if preserve then select (is_active param) (seen ++ (line ∷ [])) else [])
  unfolding scan_line select
  scan_line-actives preserve seen s line h = ground (
    arith,
    select-append (is_active param) seen (line ∷ []),
    select-append (is_active param) s.updated (line ∷ []),
    append-nil (select (is_active param) seen),
  )

  scan_line-existing :
      (preserve : Bool) (seen : List Text) (s : Scan) (line : Text)
      → s.existing ≡ (if preserve then map strip (select (is_active param) seen) else [])
      → (scan_line param preserve s line).existing
        ≡ (if preserve then map strip (select (is_active param) (seen ++ (line ∷ []))) else [])
  unfolding scan_line select
  scan_line-existing preserve seen s line h = ground (
    arith,
    select-append (is_active param) seen (line ∷ []),
    append-nil (select (is_active param) seen),
    map-append strip (select (is_active param) seen) (line ∷ []),
  )

  Placed-append :
      (n : ℕ) (updated : List Text) (line : Text)
      → is_active param line ≡ false
      → Placed (some n) updated
      → Placed (some n) (updated ++ (line ∷ []))
  unfolding select
  Placed-append n updated line f (below, none_behind) = (
    omega (arith, length-append updated (line ∷ [])),
    rw (drop-append n updated (line ∷ []) below)
        (rw (select-append (is_active param) (drop n updated) (line ∷ [])) (rw none_behind (rw f))),
  )

  Placed-end : (updated : List Text) → Placed (some (length updated)) updated
  unfolding select
  Placed-end updated = (omega arith, rw (drop-length updated))

  other_line :
      (at_ : Option ℕ) (updated : List Text) (line : Text)
      → is_active param line ≡ false
      → Placed at_ updated
      → Placed (comment_position param line (updated ++ (line ∷ [])) at_) (updated ++ (line ∷ []))
  unfolding select
  other_line (some n) updated line f p = Placed-append n updated line f p
  other_line none updated line f (p, _) = elim (Bool-cases (is_comment param line)) [
    | inl c ↦ rw c (Placed-end (updated ++ (line ∷ [])))
    | inr n ↦ rw n (rw (select-append (is_active param) updated (line ∷ [])) (rw p (rw f)), tt)
  ]

  scan_line-Placed :
      (preserve : Bool) (s : Scan) (line : Text)
      → Placed s.insert_at s.updated
      → Placed (scan_line param preserve s line).insert_at (scan_line param preserve s line).updated
  unfolding scan_line
  scan_line-Placed true s line p = elim (Bool-cases (is_active param line)) [
    | inl a ↦ rw (a, scan_line) (Placed-end (s.updated ++ (line ∷ [])))
    | inr f ↦ rw (f, scan_line) (other_line s.insert_at s.updated line f p)
  ]
  scan_line-Placed false s line p = elim (Bool-cases (is_active param line)) [
    | inl a ↦ rw (a, scan_line) p
    | inr f ↦ rw (f, scan_line) (other_line s.insert_at s.updated line f p)
  ]

  scan_line-IsScan :
      (preserve : Bool) (seen : List Text) (s : Scan) (line : Text)
      → IsScan preserve seen s
      → IsScan preserve (seen ++ (line ∷ [])) (scan_line param preserve s line)
  scan_line-IsScan preserve seen s line h = record {
    actives = scan_line-actives preserve seen s line h.actives;
    others = scan_line-others preserve seen s line h.others;
    existing = scan_line-existing preserve seen s line h.existing;
    placed = scan_line-Placed preserve s line h.placed;
  }

  scan_lines-IsScan_from :
      (preserve : Bool) (seen lines : List Text) (s : Scan)
      → IsScan preserve seen s
      → IsScan preserve (seen ++ lines) (scan_lines param preserve s lines)
  unfolding scan_lines
  scan_lines-IsScan_from preserve seen [] s h = rw (append-nil seen) h
  scan_lines-IsScan_from preserve seen (line ∷ lines) s h =
      rw (append_assoc seen (line ∷ []) lines) at (
        scan_lines-IsScan_from preserve (seen ++ (line ∷ [])) lines
          (scan_line param preserve s line) (scan_line-IsScan preserve seen s line h))

  pub scan_lines-IsScan :
      (preserve : Bool) (lines : List Text)
      → IsScan preserve lines (scan_lines param preserve scan_start lines)
  unfolding select
  scan_lines-IsScan preserve lines = scan_lines-IsScan_from preserve [] lines scan_start (record {
    actives = ground arith;
    others = refl;
    existing = ground arith;
    placed = (refl, tt);
  })
