-- ===== src/Bootstrap/Indexed/Collected.antt =====
-- The variables that the loop of `CollectIndexed` collects from the environment.
use text.Mathlib.TextEquality.{eq_iff}
use text.Mathlib.TextLemmas.{append_assoc}
use zabbix_docker.Base.{
  ℕ, String, ◌<>◌, ◌≡◌, refl, sym, ap, ◌∙◌, ◌≢◌, inl, inr, Bool, Option, none, some, List, [], ◌∷◌,
  arith, if◌then◌else◌, Option-cases, ◌==◌, nat_eq, char_eq, string_eq, list_eq, Result, ok, err,
  bind-eq-ok, ok-injective, All, In, here, there, chars, of_text, cut_prefix, cut_prefix-string,
}
use zabbix_docker.Bootstrap.Environment.{Environment}
use zabbix_docker.Bootstrap.Indexed.{
  IndexedVariable, IndexedError, invalid_variable, must_not_be_empty, parse_indexed_number,
  indexed_suffix, read_variable, add_found, read_variables,
}

-- The prefix that `indexed_suffix` finds is one of the list, and the name is made of it.
pub indexed_suffix_lem :
    (P : String → Type 0) (name : String) (prefixes : List String) (prefix suffix : String)
    → All P prefixes
    → indexed_suffix name prefixes ≡ some (prefix, suffix)
    → P prefix × (name ≡ prefix <> "_" <> suffix)
unfolding indexed_suffix
indexed_suffix_lem P name [] prefix suffix a h = cc
indexed_suffix_lem P name (p ∷ prefixes) prefix suffix (a, as_) h =
    elim (Option-cases (cut_prefix (chars name) (chars (p <> "_")))) [
      | inl e ↦ indexed_suffix_lem P name prefixes prefix suffix as_ (rw (e, indexed_suffix) at h)
      | inr (rest, e) ↦
          let found : some (p, of_text rest) ≡ some (prefix, suffix) =
            rw (e, indexed_suffix) at h in
          let same : p ≡ prefix = cc found in
          let same_suffix : of_text rest ≡ suffix = cc found in
          (
            rw (← same) a,
            cut_prefix-string name (p <> "_") rest e
                ∙ append_assoc p "_" (of_text rest)
                ∙ cc (same, same_suffix),
          )
    ]

-- An entry of the environment that becomes an element of the list.
pub record IsIndexed (ordered : List String) (env : Environment) (v : IndexedVariable)
    : Type 0 where
  pub value : String
  pub suffix : String
  pub at_name : In (v.name, value) env
  pub not_empty : value ≢ ""
  pub splits : indexed_suffix v.name ordered ≡ some (v.prefix, suffix)
  pub is_index : parse_indexed_number suffix ≡ some v.index

All-add_found :
    {P : IndexedVariable → Type 0} (found : Option IndexedVariable) (vs : List IndexedVariable)
    → ((v : IndexedVariable) → found ≡ some v → P v)
    → All P vs
    → All P (add_found found vs)
All-add_found none vs h hs = hs
All-add_found (some v) vs h hs = (h v refl, hs)

In-add_found :
    {v : IndexedVariable} (found : Option IndexedVariable) {vs : List IndexedVariable}
    → In v vs
    → In v (add_found found vs)
In-add_found none m = m
In-add_found (some u) m = there m

module _ (ordered : List String) (strict : Bool) where
  abbrev read_index :
      String → String → String → Option ℕ → Result IndexedError (Option IndexedVariable)
  read_index name value prefix none = if strict then err (invalid_variable name) else ok none
  read_index name value prefix (some index) =
      if value == ""
      then err (must_not_be_empty name)
      else ok (some (record { index = index; name = name; prefix = prefix }))

  read_index-some :
      (name value prefix : String) (o : Option ℕ) (v : IndexedVariable)
      → read_index name value prefix o ≡ ok (some v)
      → (name ≡ v.name) × (prefix ≡ v.prefix) × (value ≢ "") × (o ≡ some v.index)
  read_index-some name value prefix o v h = ground (arith, eq_iff value "")

  read_variable-eq :
      (name value prefix suffix : String)
      → indexed_suffix name ordered ≡ some (prefix, suffix)
      → read_variable ordered strict name value
        ≡ read_index name value prefix (parse_indexed_number suffix)
  unfolding read_variable
  read_variable-eq name value prefix suffix e =
      rw (e, read_variable)
        (elim (Option-cases (parse_indexed_number suffix)) [ inl n ↦ rw n | inr (i, n) ↦ rw n ])

  read_variable-none :
      (name value : String)
      → indexed_suffix name ordered ≡ none
      → read_variable ordered strict name value ≡ ok none
  unfolding read_variable
  read_variable-none name value e = rw (e, read_variable)

  -- What a variable that is found says of its entry.
  read_variable-some :
      (name value : String) (v : IndexedVariable)
      → read_variable ordered strict name value ≡ ok (some v)
      → (suffix : String) × (name ≡ v.name)
        × (value ≢ "")
        × (indexed_suffix name ordered ≡ some (v.prefix, suffix))
        × (parse_indexed_number suffix ≡ some v.index)
  read_variable-some name value v h = elim (Option-cases (indexed_suffix name ordered)) [
    | inl e ↦ cc (read_variable-none name value e)
    | inr ((p, suffix), e) ↦
        let (same_name, same_prefix, filled, is_index) =
          read_index-some name value p (parse_indexed_number suffix) v
            (sym (read_variable-eq name value p suffix e) ∙ h) in
        (suffix, same_name, filled, e ∙ ap (λ q. some (q, suffix)) same_prefix, is_index)
  ]

  -- What is found of an entry that is an index.
  read_variable-found :
      (name value prefix suffix : String) (index : ℕ) (found : Option IndexedVariable)
      → indexed_suffix name ordered ≡ some (prefix, suffix)
      → parse_indexed_number suffix ≡ some index
      → read_variable ordered strict name value ≡ ok found
      → found ≡ some (record { index = index; name = name; prefix = prefix })
  read_variable-found name value prefix suffix index found s i h =
      ground (arith, i, read_variable-eq name value prefix suffix s)

  pub read_variables-IsIndexed :
      (env all : Environment) (vs : List IndexedVariable)
      → ((e : String × String) → In e env → In e all)
      → read_variables ordered strict env ≡ ok vs
      → All (IsIndexed ordered all) vs
  unfolding read_variables
  read_variables-IsIndexed [] all vs m h = rw (← ok-injective h) tt
  read_variables-IsIndexed ((name, value) ∷ env) all vs m h =
      let (found, e, h') = bind-eq-ok (read_variable ordered strict name value) _ h in
      let (rest, e', h'') = bind-eq-ok (read_variables ordered strict env) _ h' in
      rw (← ok-injective h'') (
        All-add_found found rest
          (λ v same.
            let (suffix, n, filled, splits, i) = read_variable-some name value v (e ∙ ap ok same) in
            record {
              value = value;
              suffix = suffix;
              at_name = m _ (here (ap (λ k. (k, value)) (sym n)));
              not_empty = filled;
              splits = rw n at splits;
              is_index = i;
            })
          (read_variables-IsIndexed env all rest (λ x k. m x (there k)) e'))

  -- Every entry that is an index of a prefix is found.
  pub In-read_variables :
      (env : Environment) (vs : List IndexedVariable) (name value prefix suffix : String)
      (index : ℕ)
      → In (name, value) env
      → indexed_suffix name ordered ≡ some (prefix, suffix)
      → parse_indexed_number suffix ≡ some index
      → read_variables ordered strict env ≡ ok vs
      → In (record { index = index; name = name; prefix = prefix }) vs
  unfolding read_variables
  In-read_variables [] vs name value prefix suffix index m s i h = elim m [ ]
  In-read_variables ((n, w) ∷ env) vs name value prefix suffix index (here same) s i h =
      let (found, e, h') = bind-eq-ok (read_variable ordered strict n w) _ h in
      let (rest, e', h'') = bind-eq-ok (read_variables ordered strict env) _ h' in
      let it =
        read_variable-found name value prefix suffix index found s i
          (ap (λ (p : String × String). read_variable ordered strict p.0 p.1) same ∙ e) in
      rw (← ok-injective h'', it) (here refl)
  In-read_variables ((n, w) ∷ env) vs name value prefix suffix index (there m) s i h =
      let (found, e, h') = bind-eq-ok (read_variable ordered strict n w) _ h in
      let (rest, e', h'') = bind-eq-ok (read_variables ordered strict env) _ h' in
      rw (← ok-injective h'')
        (In-add_found found (In-read_variables env rest name value prefix suffix index m s i e'))
