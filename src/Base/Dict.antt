-- ===== src/Base/Dict.antt =====
-- Go's `map`: an association list. The order of the list is the order in which one run iterates over
-- the map, which Go leaves open; what is proved holds for every order.
use zabbix_docker.Base.Tests.{Eq, if◌then◌else◌, Bool-cases}
use mathlib.Core.Path.{◌≡◌, refl}
use mathlib.Core.Logic.{inl, inr}
use mathlib.Core.Bool.{Bool}
use mathlib.Core.Option.{Option, none, some}
use mathlib.Core.List.{List, [], ◌∷◌}
use native.Mathlib.Omega.{arith}

abbrev pub Dict {ℓ κ} : Type ℓ → Type κ → Type (ℓ ⊔ κ)
Dict K V = List (K × V)

module _ {ℓ κ} {K : Type ℓ} {V : Type κ} where
  unfoldable pub keys : Dict K V → List K
  keys [] = []
  keys ((k, v) ∷ d) = k ∷ keys d

module _ {ℓ κ} {K : Type ℓ} {V : Type κ} ⦃e : Eq K⦄ where
  -- `v, found := d[k]`
  unfoldable pub lookup : K → Dict K V → Option V
  lookup k [] = none
  lookup k ((j, v) ∷ d) = if e.beq j k then some v else lookup k d

  -- `d[k] = v`
  unfoldable pub insert : K → V → Dict K V → Dict K V
  insert k v [] = (k, v) ∷ []
  insert k v ((j, w) ∷ d) = if e.beq j k then (k, v) ∷ d else (j, w) ∷ insert k v d

  -- `delete(d, k)`
  unfoldable pub erase : K → Dict K V → Dict K V
  erase k [] = []
  erase k ((j, w) ∷ d) = let rest = erase k d in if e.beq j k then rest else (j, w) ∷ rest

  -- A loop over the map that deletes the keys that pass a test.
  unfoldable pub erase_where : (K → Bool) → Dict K V → Dict K V
  erase_where p [] = []
  erase_where p ((j, w) ∷ d) = let rest = erase_where p d in if p j then rest else (j, w) ∷ rest

  -- A map holds a key once.
  abbrev pub NodupKeys : Dict K V → Type κ
  NodupKeys [] = Unit
  NodupKeys ((k, _) ∷ d) = (lookup k d ≡ none) × NodupKeys d

  pub lookup-nil : (k : K) → lookup k [] ≡ none
  unfolding lookup
  lookup-nil k = refl

  pub lookup-cons :
      (j k : K) (v : V) (d : Dict K V)
      → lookup j ((k, v) ∷ d) ≡ (if e.beq k j then some v else lookup j d)
  unfolding lookup
  lookup-cons j k v d = refl

  pub lookup-insert :
      (j k : K) (v : V) (d : Dict K V)
      → lookup j (insert k v d) ≡ (if e.beq k j then some v else lookup j d)
  unfolding insert lookup
  lookup-insert j k v [] = refl
  lookup-insert j k v ((i, w) ∷ d) =
      ground (arith, e.beq_iff k j, e.beq_iff i k, e.beq_iff i j, lookup-insert j k v d)

  pub lookup-erase :
      (j k : K) (d : Dict K V) → lookup j (erase k d) ≡ (if e.beq k j then none else lookup j d)
  unfolding erase lookup
  lookup-erase j k [] = ground arith
  lookup-erase j k ((i, w) ∷ d) =
      ground (arith, e.beq_iff k j, e.beq_iff i k, e.beq_iff i j, lookup-erase j k d)

  pub lookup-erase_where :
      (p : K → Bool) (j : K) (d : Dict K V)
      → lookup j (erase_where p d) ≡ (if p j then none else lookup j d)
  unfolding erase_where lookup
  lookup-erase_where p j [] = ground arith
  lookup-erase_where p j ((i, w) ∷ d) = elim (Bool-cases (e.beq i j)) [
    | inl same ↦
        rw ((e.beq_iff i j).0 same) (ground (arith, e.beq_iff j j, lookup-erase_where p j d))
    | inr differ ↦ ground (arith, lookup-erase_where p j d)
  ]

  pub insert-NodupKeys : (k : K) (v : V) (d : Dict K V) → NodupKeys d → NodupKeys (insert k v d)
  unfolding insert
  insert-NodupKeys k v [] _ = (lookup-nil k, tt)
  insert-NodupKeys k v ((j, w) ∷ d) (fresh, u) = elim (Bool-cases (e.beq j k)) [
    | inl same ↦ rw same (rw ((e.beq_iff j k).0 same) at fresh, u)
    | inr differ ↦ rw differ (
      ground (arith, lookup-insert j k v d, e.beq_iff j k, e.beq_iff k j),
      insert-NodupKeys k v d u,
    )
  ]
