-- ===== src/Bootstrap/Indexed/Consecutive.antt =====
-- The list that `CollectIndexed` returns, and its positions.
use zabbix_docker.Base.Decimal.{itoa, max_int}
use zabbix_docker.Base.{
  ℕ, zero, suc, ◌+◌, String, ◌<>◌, ◌≡◌, sym, ap, ◌∙◌, ◌≢◌, ◌↔◌, inl, inr, Bool, Option, none, some,
  List, [], ◌∷◌, arith, Option-cases, nat_eq, char_eq, string_eq, list_eq, ok, bind-eq-ok,
  ok-injective, get_elem?, list_ext, In, here, there, In-of_get_elem?, All-In, All-of_In, of_text,
  of_text-chars, chars-of_text, ◌≤◌,
}
use zabbix_docker.Base.Sort.{sort, All-sort, In-sort}
use zabbix_docker.Bootstrap.Environment.{Environment}
use zabbix_docker.Bootstrap.Indexed.{
  IndexedVariable, indexed_name, parse_indexed_number, indexed_suffix, longer, variable_less,
  check_unindexed, read_variables, check_consecutive, collect_indexed,
}
use zabbix_docker.Bootstrap.Indexed.Number.{parse_indexed_number_iff}
use zabbix_docker.Bootstrap.Indexed.Suffix.{indexed_suffix-indexed_name}
use zabbix_docker.Bootstrap.Indexed.Collected.{
  IsIndexed, indexed_suffix_lem, read_variables-IsIndexed, In-read_variables,
}

check_consecutive-index :
    (n : ℕ) (previous : Option IndexedVariable) (vs : List IndexedVariable) (i : ℕ)
    (v : IndexedVariable)
    → check_consecutive n previous vs ≡ ok tt
    → get_elem? vs i ≡ some v
    → v.index ≡ n + i
unfolding check_consecutive
check_consecutive-index n previous [] i v h e = cc
check_consecutive-index n previous (w ∷ vs) zero v h e = ground arith
check_consecutive-index n previous (w ∷ vs) (suc i) v h e =
    ground (arith, check_consecutive-index (n + 1) (some w) vs i v)

In-check_consecutive :
    (n : ℕ) (previous : Option IndexedVariable) (vs : List IndexedVariable) {v : IndexedVariable}
    → check_consecutive n previous vs ≡ ok tt
    → In v vs
    → (i : ℕ) × (v.index ≡ n + i) × (get_elem? vs i ≡ some v)
unfolding check_consecutive
In-check_consecutive n previous [] h m = elim m [ ]
In-check_consecutive n previous (w ∷ vs) {v} h (here e) = (0, ground (arith, e), ap some (sym e))
In-check_consecutive n previous (w ∷ vs) {v} h (there m) =
    let (i, e, g) = In-check_consecutive (n + 1) (some w) vs (ground arith) m in
    (suc i, omega arith, g)

-- The parts of a successful call.
record Collection (env : Environment) (prefixes : List String) (strict : Bool)
    (vs : List IndexedVariable) : Type 0 where
  found : List IndexedVariable
  no_plain : check_unindexed env (sort longer prefixes) ≡ ok tt
  reads : read_variables (sort longer prefixes) strict env ≡ ok found
  sorts : vs ≡ sort variable_less found
  consecutive : check_consecutive 0 none vs ≡ ok tt

collect_indexed-Collection :
    (env : Environment) (prefixes : List String) (strict : Bool) (vs : List IndexedVariable)
    → collect_indexed env prefixes strict ≡ ok vs
    → Collection env prefixes strict vs
unfolding collect_indexed
collect_indexed-Collection env prefixes strict vs h =
    let (_, plain, h₁) = bind-eq-ok (check_unindexed env (sort longer prefixes)) _ h in
    let (found, reads, h₂) = bind-eq-ok (read_variables (sort longer prefixes) strict env) _ h₁ in
    let (_, c, h₃) = bind-eq-ok (check_consecutive 0 none (sort variable_less found)) _ h₂ in
    let same : sort variable_less found ≡ vs = ok-injective h₃ in
    record {
      found = found;
      no_plain = plain;
      reads = reads;
      sorts = sym same;
      consecutive = rw same at c;
    }

Collection-IsIndexed :
    (env : Environment) (prefixes : List String) (strict : Bool) (vs : List IndexedVariable)
    → collect_indexed env prefixes strict ≡ ok vs
    → (v : IndexedVariable) → In v vs
    → IsIndexed (sort longer prefixes) env v
Collection-IsIndexed env prefixes strict vs h v m =
    let c = collect_indexed-Collection env prefixes strict vs h in
    let all =
      read_variables-IsIndexed (sort longer prefixes) strict env env c.found (λ x k. k) c.reads in
    All-In (IsIndexed (sort longer prefixes) env) m
      (rw c.sorts (All-sort variable_less (IsIndexed (sort longer prefixes) env) c.found all))

suffix_eq :
    (suffix : String) (n i : ℕ)
    → parse_indexed_number suffix ≡ some n
    → n ≡ i
    → suffix ≡ of_text (itoa i)
suffix_eq suffix n i h e =
    sym (of_text-chars suffix)
    ∙ ap of_text ((parse_indexed_number_iff suffix n).0 h).0
    ∙ ap (λ k. of_text (itoa k)) e

-- The variable at a position has that index, its name is the prefix, an underscore and the index in
-- decimal, its prefix is one of those asked for, and the environment has a value for it that is not empty.
pub collect_indexed_sound :
    (env : Environment) (prefixes : List String) (strict : Bool) (vs : List IndexedVariable) (i : ℕ)
    (v : IndexedVariable)
    → collect_indexed env prefixes strict ≡ ok vs
    → get_elem? vs i ≡ some v
    → (value : String) × (v.index ≡ i)
      × (v.name ≡ indexed_name v.prefix i)
      × In v.prefix prefixes
      × In (v.name, value) env
      × (value ≢ "")
unfolding indexed_name
collect_indexed_sound env prefixes strict vs i v h e =
    let c = collect_indexed-Collection env prefixes strict vs h in
    let d = Collection-IsIndexed env prefixes strict vs h v (In-of_get_elem? v vs i e) in
    let at_i : v.index ≡ i = check_consecutive-index 0 none vs i v c.consecutive e ∙ omega arith in
    let (one_of, made) =
      indexed_suffix_lem (λ p. In p prefixes) v.name (sort longer prefixes) v.prefix d.suffix
        (All-sort longer (λ p. In p prefixes) prefixes
          (All-of_In (λ p. In p prefixes) prefixes (λ a m. m)))
        d.splits in
    (
      d.value,
      at_i,
      made ∙ ap (λ t. v.prefix <> "_" <> t) (suffix_eq d.suffix v.index i d.is_index at_i),
      one_of,
      d.at_name,
      d.not_empty,
    )

-- An entry that is split at a prefix and an index stands in the result, at the position of its index.
collect_indexed-split :
    (env : Environment) (prefixes : List String) (strict : Bool) (vs : List IndexedVariable)
    (name value prefix suffix : String) (index : ℕ)
    → collect_indexed env prefixes strict ≡ ok vs
    → In (name, value) env
    → indexed_suffix name (sort longer prefixes) ≡ some (prefix, suffix)
    → parse_indexed_number suffix ≡ some index
    → get_elem? vs index ≡ some (record { index = index; name = name; prefix = prefix })
collect_indexed-split env prefixes strict vs name value prefix suffix index h m s i =
    let c = collect_indexed-Collection env prefixes strict vs h in
    let found =
      In-read_variables (sort longer prefixes) strict env c.found name value prefix suffix index m s
        i c.reads in
    let placed : In (record { index = index; name = name; prefix = prefix }) vs =
      rw c.sorts (In-sort variable_less found) in
    let (k, at_k, e) = In-check_consecutive 0 none vs c.consecutive placed in
    let same : index ≡ k = at_k ∙ omega arith in ap (get_elem? vs) same ∙ e

-- When the collection succeeds, every variable of the environment whose name is one of the prefixes, an
-- underscore and an index in decimal, in the range of `int`, stands in the result under this prefix, at the
-- position of its index.
pub collect_indexed_complete :
    (env : Environment) (prefixes : List String) (strict : Bool) (vs : List IndexedVariable)
    (value prefix : String) (index : ℕ)
    → collect_indexed env prefixes strict ≡ ok vs
    → In prefix prefixes
    → In (indexed_name prefix index, value) env
    → index ≤ max_int
    → get_elem? vs index
      ≡ some (record { index = index; name = indexed_name prefix index; prefix = prefix })
collect_indexed_complete env prefixes strict vs value prefix index h p m r =
    collect_indexed-split env prefixes strict vs (indexed_name prefix index) value prefix
      (of_text (itoa index)) index h m (indexed_suffix-indexed_name prefix index prefixes p)
      ((parse_indexed_number_iff (of_text (itoa index)) index).1 (chars-of_text (itoa index), r))

-- An element of one result is at its position in the other.
collect_indexed-transfer :
    (env env' : Environment) (prefixes : List String) (strict : Bool) (vs ws : List IndexedVariable)
    (i : ℕ) (v : IndexedVariable)
    → ((e : String × String) → In e env → In e env')
    → collect_indexed env prefixes strict ≡ ok vs
    → collect_indexed env' prefixes strict ≡ ok ws
    → get_elem? vs i ≡ some v
    → get_elem? ws i ≡ some v
collect_indexed-transfer env env' prefixes strict vs ws i v same h h' e =
    let d = Collection-IsIndexed env prefixes strict vs h v (In-of_get_elem? v vs i e) in
    let at_i : i ≡ v.index = sym (collect_indexed_sound env prefixes strict vs i v h e).1 in
    ap (get_elem? ws) at_i
    ∙ (collect_indexed-split env' prefixes strict ws v.name d.value v.prefix d.suffix v.index h'
        (same (v.name, d.value) d.at_name) d.splits d.is_index)

-- The result does not depend on the order in which the environment is walked: two environments with the
-- same entries that are both accepted give the same list.
pub collect_indexed_order :
    (env env' : Environment) (prefixes : List String) (strict : Bool) (vs ws : List IndexedVariable)
    → ((e : String × String) → In e env ↔ In e env')
    → collect_indexed env prefixes strict ≡ ok vs
    → collect_indexed env' prefixes strict ≡ ok ws
    → vs ≡ ws
collect_indexed_order env env' prefixes strict vs ws same h h' = list_ext vs ws (λ i.
    elim (Option-cases (get_elem? vs i)) [
      | inl e ↦ elim (Option-cases (get_elem? ws i)) [
        | inl e' ↦ e ∙ sym e'
        | inr (w, e') ↦
            cc (
              collect_indexed-transfer env' env prefixes strict ws vs i w (λ x. (same x).1) h' h e')
      ]
      | inr (v, e) ↦
          e
          ∙ sym
              (collect_indexed-transfer env env' prefixes strict vs ws i v (λ x. (same x).0) h h' e)
    ])
