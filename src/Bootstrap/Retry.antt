-- ===== src/Bootstrap/Retry.antt =====
-- templates/entrypoints/internal/bootstrap/retry.go: `Retry` and `Stop`.
mod Steps
pub mod Bounds
pub mod Results
pub mod Unlimited
use zabbix_docker.Base.{
  ℕ, zero, suc, ◌+◌, String, refl, Bool, false, ◌||◌, Option, none, some, ltb, if◌then◌else◌, ◌==◌,
  nat_eq, char_eq, string_eq, list_eq, Result, ok, err,
}
use zabbix_docker.Base.Decimal.{ℤ, pos, negsuc}

-- An error: one of another package, one marked by `Stop`, or one that `fmt.Errorf` wraps with `%w`.
pub data Failure {ℓ} (E : Type ℓ) : Type ℓ where
  plain : E → Failure E
  stop_error : Failure E → Failure E
  wrapped : String → Failure E → Failure E

-- `errors.As(err, &stop)`: what the outermost mark holds.
unfoldable pub as_stop {ℓ} : {E : Type ℓ} → Failure E → Option (Failure E)
as_stop (plain e) = none
as_stop (stop_error e) = some e
as_stop (wrapped message e) = as_stop e

-- `Stop`
abbrev pub stop {ℓ} : {E : Type ℓ} → Failure E → Failure E
stop = stop_error

-- The function values of `RetryOptions`, the attempt and the context, over the state `W` of the world.
pub record RetryOptions (W E : Type 0) : Type 0 where
  pub attempts : ℤ
  pub on_retry : Option (Option (Failure E) → W → W)
  pub wait : W → Result (Failure E) (Unit {0}) × W

pub data Round (W E : Type 0) : Type 0 where
  return_with : Result (Failure E) (Unit {0}) → W → Round W E
  next_round : Failure E → W → Round W E

-- `OnRetry`, which may be nil.
abbrev pub notify :
    {W E : Type 0} → Option (Option (Failure E) → W → W) → Option (Failure E) → W → W
notify none last w = w
notify (some f) last w = f last w

-- `options.Attempts == 0`
abbrev pub is_zero : ℤ → Bool
is_zero (pos n) = n == 0
is_zero (negsuc _) = false

-- `call < options.Attempts`
abbrev pub below : ℕ → ℤ → Bool
below call (pos n) = ltb call n
below call (negsuc _) = false

module _ {W E : Type 0} (options : RetryOptions W E)
    (attempt : W → Result (Failure E) (Unit {0}) × W) (ctx_err : W → Option (Failure E)) where
  -- What comes before every call but the first.
  abbrev pub pause : ℕ → Option (Failure E) → W → Result (Failure E) (Unit {0}) × W
  pause call last w =
      if ltb 0 call then options.wait (notify options.on_retry last w) else (ok tt, w)

  -- What ends the loop after a failure: the mark of `Stop`, or the context.
  abbrev verdict : Option (Failure E) → W → Option (Failure E)
  verdict (some e) w = some e
  verdict none w = ctx_err w

  abbrev pub returned : Option (Failure E) → Result (Failure E) (Unit {0})
  returned none = ok tt
  returned (some e) = err e

  -- One round of the loop: it returns, or goes on with the failure of the attempt.
  after_failure : Failure E → W → Round W E
  after_failure e w = elim (verdict (as_stop e) w) [
    | some e' ↦ return_with (err e') w
    | none ↦ next_round e w
  ]

  try_once : W → Round W E
  unfolding after_failure
  try_once w =
      let (tried, w') = attempt w in
      elim tried [ ok _ ↦ return_with (ok tt) w' | err e ↦ after_failure e w' ]

  unfoldable pub round : ℕ → Option (Failure E) → W → Round W E
  unfolding try_once
  round call last w =
      let (paused, w') = pause call last w in
      elim paused [ err e ↦ return_with (err e) w' | ok _ ↦ try_once w' ]

  abbrev pub goes_on : ℕ → Bool
  goes_on call = is_zero options.attempts || below call options.attempts

  -- The loop, from the given call on. With `attempts` 0 it may run for ever, so it takes fuel; `none`
  -- says that the fuel ran out.
  unfoldable pub retry_from :
      ℕ → ℕ → Option (Failure E) → W → Option (Result (Failure E) (Unit {0}) × W)
  retry_from zero call last w = none
  retry_from (suc fuel) call last w =
      if goes_on call
      then elim (round call last w) [
        | return_with r w' ↦ some (r, w')
        | next_round e w' ↦ retry_from fuel (call + 1) (some e) w'
      ]
      else some (returned last, w)

  unfoldable pub retry : ℕ → W → Option (Result (Failure E) (Unit {0}) × W)
  retry fuel w = retry_from fuel 0 none w
