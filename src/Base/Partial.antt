-- ===== src/Base/Partial.antt =====
-- State-passing functions that may run for ever: `none` says that the fuel of a loop ran out.
use mathlib.Core.Option.{Option, none, some}
use zabbix_docker.Base.Outcome.{Result, ok, err, map_err}
use mathlib.Core.Path.{◌≡◌, refl}
use zabbix_docker.Base.Exec
use zabbix_docker.Base.Exec.{Exec}

abbrev pub Partial {ℓ} : Type ℓ → Type ℓ → Type ℓ → Type ℓ
Partial W E A = W → Option (Result E A × W)

module _ {ℓ} {W E A : Type ℓ} where
  abbrev pub pure : A → Partial W E A
  pure a w = some (ok a, w)

  abbrev pub raise : E → Partial W E A
  raise e w = some (err e, w)

  -- A function that always ends.
  abbrev pub always : Exec W E A → Partial W E A
  always m w = some (m w)

module _ {ℓ} {W E A B : Type ℓ} where
  abbrev pub continue_with : Result E A → (A → Partial W E B) → Partial W E B
  continue_with (ok a) f w = f a w
  continue_with (err e) f w = some (err e, w)

  infixl 5 ◌>>=◌ ◌>>◌
  abbrev pub ◌>>=◌ : Partial W E A → (A → Partial W E B) → Partial W E B
  ◌>>=◌ m f w = elim (m w) [ none ↦ none | some (r, w') ↦ continue_with r f w' ]

  abbrev pub ◌>>◌ : Partial W E A → Partial W E B → Partial W E B
  m >> n = m >>= λ _. n

module _ {ℓ} {W E F A : Type ℓ} where
  abbrev pub wrap_err : (E → F) → Partial W E A → Partial W F A
  wrap_err f m w = elim (m w) [ none ↦ none | some (r, w') ↦ some (map_err f r, w') ]

module _ {ℓ} {E A : Type ℓ} where
  -- What is returned without an error has the property.
  abbrev pub OkAnd : (A → Type 0) → Result E A → Type 0
  OkAnd P (ok a) = P a
  OkAnd P (err e) = Unit

module _ {ℓ} {W E A : Type ℓ} (P : A → Type 0) where
  abbrev EndsAt : Partial W E A → W → Type ℓ
  EndsAt m w = (r : Result E A) × (w' : W) × (m w ≡ some (r, w')) × OkAnd P r

  -- The function ends in every state, and what it returns has the property `P`.
  pub record Ends (m : Partial W E A) : Type ℓ where
    pub at_state : (w : W) → EndsAt m w

  pub Ends-pure : (a : A) → P a → Ends (pure a)
  Ends-pure a p = record { at_state = λ w. (ok a, w, refl, p) }

  pub Ends-raise : (e : E) → Ends (raise e)
  Ends-raise e = record { at_state = λ w. (err e, w, refl, tt) }

module _ {ℓ} {W E A B : Type ℓ} (P : A → Type 0) (Q : B → Type 0) where
  continue_with-Ends :
      (f : A → Partial W E B) (r : Result E A) (w : W)
      → OkAnd P r
      → ((a : A) → P a → Ends Q (f a))
      → EndsAt Q (continue_with r f) w
  continue_with-Ends f (ok a) w p h = (h a p).at_state w
  continue_with-Ends f (err e) w p h = (err e, w, refl, tt)

  pub Ends-bind :
      {m : Partial W E A} {f : A → Partial W E B}
      → Ends P m
      → ((a : A) → P a → Ends Q (f a))
      → Ends Q (m >>= f)
  Ends-bind {m = m} {f = f} ends h = record {
    at_state = λ w.
        let (r, w', e, p) = ends.at_state w in
        let (r', w'', e', q) = continue_with-Ends f r w' p h in (r', w'', rw (e, ◌>>=◌) e', q);
  }

module _ {ℓ} {E F A : Type ℓ} (P : A → Type 0) where
  pub OkAnd-map_err : (f : E → F) (r : Result E A) → OkAnd P r → OkAnd P (map_err f r)
  OkAnd-map_err f (ok a) p = p
  OkAnd-map_err f (err e) p = tt

module _ {ℓ} {W E F A : Type ℓ} (P : A → Type 0) where
  pub Ends-wrap_err : (f : E → F) {m : Partial W E A} → Ends P m → Ends P (wrap_err f m)
  Ends-wrap_err f {m = m} ends = record {
    at_state = λ w.
        let (r, w', e, p) = ends.at_state w in
        (map_err f r, w', rw (e, wrap_err), OkAnd-map_err P f r p);
  }

module _ {ℓ} {W E A B : Type ℓ} (P : A → Type 0) (Q : B → Type 0) where
  continue_with-OkAnd :
      (f : A → Exec W E B) (r : Result E A) (w : W)
      → OkAnd P r
      → ((a : A) → P a → (w : W) → OkAnd Q (f a w).0)
      → OkAnd Q (Exec.continue_with r f w).0
  continue_with-OkAnd f (ok a) w p h = h a p w
  continue_with-OkAnd f (err e) w p h = tt

  -- The same for functions that always end.
  pub OkAnd-bind :
      (m : Exec W E A) (f : A → Exec W E B) (w : W)
      → OkAnd P (m w).0
      → ((a : A) → P a → (w : W) → OkAnd Q (f a w).0)
      → OkAnd Q (Exec.◌>>=◌ m f w).0
  OkAnd-bind m f w p h = continue_with-OkAnd f (m w).0 (m w).1 p h
