-- ===== src/Base/Sort.antt =====
-- `sort.Slice`, `sort.Strings`: insertion by a test. Go's sort is not stable; the program sorts by keys
-- that no two elements share, or by lengths where ties do not matter, so every sort gives this list.
use mathlib.Core.Bool.{Bool, true, false}
use mathlib.Core.List.{List, [], ◌∷◌}
use mathlib.Core.Logic.{inl, inr}
use mathlib.Core.Path.{◌≡◌, refl, ◌∙◌}
use native.Mathlib.Omega.{arith}
use zabbix_docker.Base.Tests.{Eq, contains, if◌then◌else◌, Bool-cases}
use zabbix_docker.Base.Lists.{All, In, here, there}

module _ {ℓ} {A : Type ℓ} (less : A → A → Bool) where
  unfoldable pub insert_sorted : A → List A → List A
  insert_sorted a [] = a ∷ []
  insert_sorted a (x ∷ xs) = if less x a then x ∷ insert_sorted a xs else a ∷ x ∷ xs

  unfoldable pub sort : List A → List A
  unfolding insert_sorted
  sort [] = []
  sort (x ∷ xs) = insert_sorted x (sort xs)

  All-insert_sorted {κ} :
      (P : A → Type κ) (a : A) (xs : List A) → P a → All P xs → All P (insert_sorted a xs)
  unfolding insert_sorted
  All-insert_sorted P a [] h hs = (h, tt)
  All-insert_sorted P a (x ∷ xs) h (hx, hs) = elim (Bool-cases (less x a)) [
    | inl t ↦ rw t (hx, All-insert_sorted P a xs h hs)
    | inr f ↦ rw f (h, (hx, hs))
  ]

  pub All-sort {κ} : (P : A → Type κ) (xs : List A) → All P xs → All P (sort xs)
  unfolding sort
  All-sort P [] h = tt
  All-sort P (x ∷ xs) (h, hs) = All-insert_sorted P x (sort xs) h (All-sort P xs hs)

  In-insert_sorted_self : (a : A) (xs : List A) → In a (insert_sorted a xs)
  unfolding insert_sorted
  In-insert_sorted_self a [] = here refl
  In-insert_sorted_self a (x ∷ xs) = elim (Bool-cases (less x a)) [
    | inl t ↦ rw t (there (In-insert_sorted_self a xs))
    | inr f ↦ rw f (here refl)
  ]

  In-insert_sorted : {b : A} (a : A) {xs : List A} → In b xs → In b (insert_sorted a xs)
  unfolding insert_sorted
  In-insert_sorted a (here {x} {xs} e) = elim (Bool-cases (less x a)) [
    | inl t ↦ rw t (here e)
    | inr f ↦ rw f (there (here e))
  ]
  In-insert_sorted a (there {x} {xs} m) =
      let ih = In-insert_sorted a m in
      elim (Bool-cases (less x a)) [ inl t ↦ rw t (there ih) | inr f ↦ rw f (there (there m)) ]

  pub In-sort : {b : A} {xs : List A} → In b xs → In b (sort xs)
  unfolding sort
  In-sort {b} (here {x} {xs} e) = rw e (In-insert_sorted_self x (sort xs))
  In-sort (there {x} {xs} m) = In-insert_sorted x (In-sort m)

  -- No element is less than one before it.
  unfoldable pub IsOrdered : List A → Type ℓ
  IsOrdered [] = Unit
  IsOrdered (x ∷ xs) = All (λ y. less y x ≡ false) xs × IsOrdered xs

  module _ (asym : (a b : A) → less a b ≡ true → less b a ≡ false)
      (below_trans : (a b c : A) → less a b ≡ false → less b c ≡ false → less a c ≡ false) where
    All-below :
        (a x : A) (xs : List A)
        → less x a ≡ false
        → All (λ y. less y x ≡ false) xs
        → All (λ y. less y a ≡ false) xs
    All-below a x [] h hs = tt
    All-below a x (y ∷ xs) h (hy, hs) = (below_trans y x a hy h, All-below a x xs h hs)

    insert_sorted-IsOrdered : (a : A) (xs : List A) → IsOrdered xs → IsOrdered (insert_sorted a xs)
    unfolding insert_sorted IsOrdered
    insert_sorted-IsOrdered a [] h = (tt, tt)
    insert_sorted-IsOrdered a (x ∷ xs) (below, h) = elim (Bool-cases (less x a)) [
      | inl t ↦ rw t (
        All-insert_sorted (λ y. less y x ≡ false) a xs (asym x a t) below,
        insert_sorted-IsOrdered a xs h,
      )
      | inr f ↦ rw f ((f, All-below a x xs f below), (below, h))
    ]

    pub sort-IsOrdered : (xs : List A) → IsOrdered (sort xs)
    unfolding sort IsOrdered
    sort-IsOrdered [] = tt
    sort-IsOrdered (x ∷ xs) = insert_sorted-IsOrdered x (sort xs) (sort-IsOrdered xs)

module _ {ℓ} {A : Type ℓ} ⦃e : Eq A⦄ (less : A → A → Bool) where
  contains-insert_sorted :
      (a : A) (xs : List A) (b : A) → contains (insert_sorted less a xs) b ≡ contains (a ∷ xs) b
  unfolding insert_sorted contains
  contains-insert_sorted a [] b = refl
  contains-insert_sorted a (x ∷ xs) b = ground (arith, contains-insert_sorted a xs b)

  -- A sort has the elements of the list.
  pub contains-sort : (xs : List A) (b : A) → contains (sort less xs) b ≡ contains xs b
  unfolding sort contains
  contains-sort [] b = refl
  contains-sort (x ∷ xs) b =
      contains-insert_sorted x (sort less xs) b ∙ ground (arith, contains-sort xs b)
