-- ===== src/Base/Exec.antt =====
-- Functions that change the state of the world and may fail. What was done before a failure stays done,
-- so the state comes back beside the error too.
use zabbix_docker.Base.Outcome.{Result, ok, err, map_err}

abbrev pub Exec {ℓ} : Type ℓ → Type ℓ → Type ℓ → Type ℓ
Exec W E A = W → Result E A × W

module _ {ℓ} {W E A : Type ℓ} where
  abbrev pub pure : A → Exec W E A
  pure a w = (ok a, w)

  abbrev pub raise : E → Exec W E A
  raise e w = (err e, w)

  abbrev pub lift : Result E A → Exec W E A
  lift r w = (r, w)

module _ {ℓ} {W E A B : Type ℓ} where
  abbrev pub continue_with : Result E A → (A → Exec W E B) → Exec W E B
  continue_with (ok a) f w = f a w
  continue_with (err e) f w = (err e, w)

  infixl 5 ◌>>=◌ ◌>>◌
  abbrev pub ◌>>=◌ : Exec W E A → (A → Exec W E B) → Exec W E B
  ◌>>=◌ m f w = let (r, w') = m w in continue_with r f w'

  abbrev pub ◌>>◌ : Exec W E A → Exec W E B → Exec W E B
  m >> n = m >>= λ _. n

module _ {ℓ} {W E F A : Type ℓ} where
  -- The error is wrapped, a value is passed on.
  abbrev pub wrap_err : (E → F) → Exec W E A → Exec W F A
  wrap_err f m w = let (r, w') = m w in (map_err f r, w')
