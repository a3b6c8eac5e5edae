-- ===== src/Base/Lists.antt =====
-- Lists measured and indexed by native numbers, and the predicates on their elements.
use Prim.Native.Nat.{ℕ, zero, suc, ◌+◌, ◌≤◌}
use mathlib.Core.Path.{◌≡◌, refl, sym, ap, ◌∙◌}
use mathlib.Core.Bool.{Bool, true, false}
use mathlib.Core.Option.{Option, none, some}
use mathlib.Core.List.{List, [], ◌∷◌, ◌++◌}
use native.Mathlib.Omega.{arith}
use zabbix_docker.Base.Tests.{if◌then◌else◌}

module _ {ℓ} {A : Type ℓ} where
  abbrev pub length : List A → ℕ
  length [] = 0
  length (x ∷ xs) = suc (length xs)

  abbrev pub get_elem? : List A → ℕ → Option A
  get_elem? [] i = none
  get_elem? (x ∷ xs) zero = some x
  get_elem? (x ∷ xs) (suc i) = get_elem? xs i

  abbrev pub take : ℕ → List A → List A
  take zero xs = []
  take (suc n) [] = []
  take (suc n) (x ∷ xs) = x ∷ take n xs

  abbrev pub drop : ℕ → List A → List A
  drop zero xs = xs
  drop (suc n) [] = []
  drop (suc n) (x ∷ xs) = drop n xs

  unfoldable pub is_empty : List A → Bool
  is_empty [] = true
  is_empty (x ∷ xs) = false

  -- The elements that pass a test, in order.
  unfoldable pub select : (A → Bool) → List A → List A
  select p [] = []
  select p (x ∷ xs) = let rest = select p xs in if p x then x ∷ rest else rest

  pub length-append : (xs ys : List A) → length (xs ++ ys) ≡ length xs + length ys
  length-append [] ys = omega arith
  length-append (x ∷ xs) ys = omega (arith, length-append xs ys)

  pub append-snoc : (xs ys : List A) (x : A) → (xs ++ (x ∷ [])) ++ ys ≡ xs ++ (x ∷ ys)
  append-snoc [] ys x = refl
  append-snoc (y ∷ xs) ys x = ap (◌∷◌ y) (append-snoc xs ys x)

  pub take-append-drop : (n : ℕ) (xs : List A) → take n xs ++ drop n xs ≡ xs
  take-append-drop zero xs = refl
  take-append-drop (suc n) [] = refl
  take-append-drop (suc n) (x ∷ xs) = rw (take-append-drop n xs)

  pub select-append :
      (p : A → Bool) (xs ys : List A) → select p (xs ++ ys) ≡ select p xs ++ select p ys
  unfolding select
  select-append p [] ys = refl
  select-append p (x ∷ xs) ys = ground (arith, select-append p xs ys)

  -- Lists that agree at every position are equal.
  pub list_ext : (xs ys : List A) → ((i : ℕ) → get_elem? xs i ≡ get_elem? ys i) → xs ≡ ys
  list_ext [] [] h = refl
  list_ext [] (y ∷ ys) h = cc (h 0)
  list_ext (x ∷ xs) [] h = cc (h 0)
  list_ext (x ∷ xs) (y ∷ ys) h =
      let heads : x ≡ y = cc (h 0) in cc (heads, list_ext xs ys (λ i. h (suc i)))

module _ {ℓ κ} {A : Type ℓ} where
  abbrev pub All : (A → Type κ) → List A → Type κ
  All P [] = Unit
  All P (x ∷ xs) = P x × All P xs

  pub All-append : (P : A → Type κ) (xs ys : List A) → All P xs → All P ys → All P (xs ++ ys)
  All-append P [] ys hx hy = hy
  All-append P (x ∷ xs) ys (h, hx) hy = (h, All-append P xs ys hx hy)

module _ {ℓ} {A : Type ℓ} where
  pub data In (a : A) : List A → Type ℓ where
    here : {x : A} {xs : List A} → a ≡ x → In a (x ∷ xs)
    there : {x : A} {xs : List A} → In a xs → In a (x ∷ xs)

  pub In-of_get_elem? : (a : A) (xs : List A) (i : ℕ) → get_elem? xs i ≡ some a → In a xs
  In-of_get_elem? a [] i h = cc
  In-of_get_elem? a (x ∷ xs) zero h = here (cc)
  In-of_get_elem? a (x ∷ xs) (suc i) h = there (In-of_get_elem? a xs i h)

  pub All-In {κ} : (P : A → Type κ) {a : A} {xs : List A} → In a xs → All P xs → P a
  All-In P (here e) (h, hs) = rw e h
  All-In P (there m) (h, hs) = All-In P m hs

  pub All-of_In {κ} : (P : A → Type κ) (xs : List A) → ((a : A) → In a xs → P a) → All P xs
  All-of_In P [] h = tt
  All-of_In P (x ∷ xs) h = (h x (here refl), All-of_In P xs (λ a m. h a (there m)))

module _ {ℓ} {A : Type ℓ} where
  pub drop-append : (n : ℕ) (xs ys : List A) → n ≤ length xs → drop n (xs ++ ys) ≡ drop n xs ++ ys
  drop-append zero xs ys h = refl
  drop-append (suc n) [] ys h = absurd (omega arith)
  drop-append (suc n) (x ∷ xs) ys h = drop-append n xs ys (omega arith)

  pub drop-length : (xs : List A) → drop (length xs) xs ≡ []
  drop-length [] = refl
  drop-length (x ∷ xs) = drop-length xs

  pub select-take-drop :
      (p : A → Bool) (n : ℕ) (xs : List A)
      → select p xs ≡ select p (take n xs) ++ select p (drop n xs)
  select-take-drop p n xs =
      ap (select p) (sym (take-append-drop n xs)) ∙ select-append p (take n xs) (drop n xs)

  pub select-All : (p : A → Bool) (xs : List A) → All (λ x. p x ≡ true) xs → select p xs ≡ xs
  unfolding select
  select-All p [] h = refl
  select-All p (x ∷ xs) (h, hs) = rw h (ap (◌∷◌ x) (select-All p xs hs))

  pub select-none : (p : A → Bool) (xs : List A) → All (λ x. p x ≡ false) xs → select p xs ≡ []
  unfolding select
  select-none p [] h = refl
  select-none p (x ∷ xs) (h, hs) = rw h (select-none p xs hs)
