-- ===== src/Bootstrap/Retry/Results.antt =====
-- What `Retry` returns, and when.
use mathlib.Core.Option.{none-ne-some, some-injective}
use mathlib.Core.Path.{subst}
use zabbix_docker.Base.{
  ℕ, zero, suc, ◌+◌, ◌≤◌, ◌<◌, ◌≡◌, refl, sym, ap, ◌∙◌, inl, inr, ◌||◌, true, false, Option, none,
  some, arith, Bool-cases, nat_eq, char_eq, string_eq, list_eq, Result, ok, err, Result-cases,
}
use zabbix_docker.Base.Decimal.{ℤ, pos, negsuc}
use zabbix_docker.Bootstrap.Retry.{
  Failure, as_stop, RetryOptions, is_zero, below, retry_from, retry, round, try_once, after_failure,
  Round, notify, pause, returned, goes_on, return_with, next_round,
}
use zabbix_docker.Bootstrap.Retry.Steps.{
  limit, goes_on-limit, Round-cases, retry_from-zero, retry_from-stop, retry_from-return,
  retry_from-next,
}

limit-is_zero : (attempts : ℤ) → 0 < limit attempts → is_zero attempts ≡ false
limit-is_zero (pos n) h = ground arith
limit-is_zero (negsuc n) h = refl

limit-starts : (attempts : ℤ) → 0 < limit attempts → (is_zero attempts || below 0 attempts) ≡ true
limit-starts (pos n) h = ground arith
limit-starts (negsuc n) h = absurd (omega arith)

module _ {W E : Type 0} (options : RetryOptions W E)
    (attempt : W → Result (Failure E) (Unit {0}) × W) (ctx_err : W → Option (Failure E)) where
  abbrev IsSuccess : (W → Type 0) → Result (Failure E) (Unit {0}) → W → Type 0
  IsSuccess P (ok _) w = P w
  IsSuccess P (err e) w = Unit

  abbrev RoundOk : (W → Type 0) → Round W E → Type 0
  RoundOk P (return_with r w) = IsSuccess P r w
  RoundOk P (next_round e w) = Unit

  -- Where the loop stands: before the first call there is no failure, and the loop goes on.
  abbrev Started : ℕ → Option (Failure E) → Type 0
  Started call none = goes_on options attempt ctx_err call ≡ true
  Started call (some e) = Unit

  last_failure :
      (call : ℕ) (last : Option (Failure E))
      → Started call last
      → goes_on options attempt ctx_err call ≡ false
      → (e : Failure E) × (last ≡ some e)
  last_failure call none s h = cc
  last_failure call (some e) s h = (e, refl)

  module _ (P : W → Type 0) (attempt_ok : (w : W) → (attempt w).0 ≡ ok tt → P (attempt w).1) where
    after_failure-RoundOk :
        (e : Failure E) (w : W) → RoundOk P (after_failure options attempt ctx_err e w)
    unfolding after_failure
    after_failure-RoundOk e w = ground arith

    try_once-RoundOk : (w : W) → RoundOk P (try_once options attempt ctx_err w)
    unfolding try_once
    try_once-RoundOk w = elim (Result-cases (attempt w).0) [
      | inl (_, e) ↦ rw (e, try_once) (attempt_ok w e)
      | inr (x, e) ↦ rw (e, try_once) (after_failure-RoundOk x (attempt w).1)
    ]

    round-RoundOk :
        (call : ℕ) (last : Option (Failure E)) (w : W)
        → RoundOk P (round options attempt ctx_err call last w)
    unfolding round
    round-RoundOk call last w = elim (Result-cases (pause options attempt ctx_err call last w).0) [
      | inl (_, e) ↦ rw (e, round) (try_once-RoundOk (pause options attempt ctx_err call last w).1)
      | inr (x, e) ↦ rw (e, round) tt
    ]

    retry_from-IsSuccess :
        (fuel call : ℕ) (last : Option (Failure E)) (w w' : W)
        → Started call last
        → retry_from options attempt ctx_err fuel call last w ≡ some (ok tt, w')
        → P w'
    retry_from-IsSuccess zero call last w w' s h =
        absurd (none-ne-some _ (sym (retry_from-zero options attempt ctx_err call last w) ∙ h))
    retry_from-IsSuccess (suc fuel) call last w w' s h =
        elim (Bool-cases (goes_on options attempt ctx_err call)) [
          | inr stop ↦
              let (e, failed) = last_failure call last s stop in
              let ended = retry_from-stop options attempt ctx_err fuel call last w stop in
              let same : returned options attempt ctx_err last ≡ ok tt =
                ap (λ (p : Result (Failure E) (Unit {0}) × W). p.0)
                  (some-injective _ _ (sym ended ∙ h)) in
              cc (ap (returned options attempt ctx_err) failed, same)
          | inl go ↦ elim (Round-cases (round options attempt ctx_err call last w)) [
            | inl (x, u, e) ↦
                let same : ◌≡◌ {A = Result (Failure E) (Unit {0}) × W} (x, u) (ok tt, w') =
                  some-injective _ _
                    (sym (retry_from-return options attempt ctx_err fuel call last w go e) ∙ h) in
                let t : RoundOk P (return_with x u) = rw e at (round-RoundOk call last w) in
                subst (λ (p : Result (Failure E) (Unit {0}) × W). IsSuccess P p.0 p.1) same t
            | inr (x, u, e) ↦
                retry_from-IsSuccess fuel (call + 1) (some x) u w' tt
                  (sym (retry_from-next options attempt ctx_err fuel call last w go e) ∙ h)
          ]
        ]

    -- With a number of attempts that is not negative `Retry` returns nil only right after an attempt that
    -- succeeded: what every successful attempt leaves
    -- true holds at the end.
    pub retry_success :
        (attempts fuel : ℕ) (w w' : W)
        → options.attempts ≡ pos attempts
        → retry options attempt ctx_err fuel w ≡ some (ok tt, w')
        → P w'
    unfolding retry
    retry_success attempts fuel w w' n h =
        retry_from-IsSuccess fuel 0 none w w' (rw n (ground arith)) h

  module _ (calls : W → ℕ) (wait_ok : (w : W) → (options.wait w).0 ≡ ok tt)
      (attempt_fails : (w : W) → (e : Failure E) × ((attempt w).0 ≡ err e) × (as_stop e ≡ none))
      (running : (w : W) → ctx_err w ≡ none)
      (attempt_counts : (w : W) → calls (attempt w).1 ≡ calls w + 1)
      (wait_counts : (w : W) → calls (options.wait w).1 ≡ calls w)
      (notify_counts : (last : Option (Failure E)) (w : W)
        → calls (notify options.on_retry last w) ≡ calls w) where
    try_once-next :
        (w : W)
        → (e : Failure E) × (u : W) × (try_once options attempt ctx_err w ≡ next_round e u)
          × (calls u ≡ calls w + 1)
    unfolding try_once after_failure
    try_once-next w =
        let (e, failed, retryable) = attempt_fails w in
        (
          e,
          (attempt w).1,
          rw (failed, try_once) (rw (retryable, after_failure) (rw (running, after_failure))),
          attempt_counts w,
        )

    round-next :
        (call : ℕ) (last : Option (Failure E)) (w : W)
        → (e : Failure E) × (u : W) × (round options attempt ctx_err call last w ≡ next_round e u)
          × (calls u ≡ calls w + 1)
    unfolding round
    round-next call last w =
        let p = pause options attempt ctx_err call last w in
        let (e, u, step, count) = try_once-next p.1 in
        let paused : p.0 ≡ ok tt = ground (arith, wait_ok (notify options.on_retry last w)) in
        let kept : calls p.1 ≡ calls w =
          ground (arith, wait_counts (notify options.on_retry last w), notify_counts last w) in
        (e, u, rw (paused, round) step, omega (arith, kept, count))

    retry_from-fails :
        (fuel call : ℕ) (last : Option (Failure E)) (w : W)
        → Started call last
        → 0 < limit options.attempts
        → call ≤ limit options.attempts
        → limit options.attempts < fuel + call
        → (e : Failure E) × (w' : W) × (retry_from options attempt ctx_err fuel call last w
            ≡ some (err e, w'))
          × (calls w' + call ≡ calls w + limit options.attempts)
    retry_from-fails zero call last w s h c f = absurd (omega arith)
    retry_from-fails (suc fuel) call last w s h c f =
        let bound = goes_on-limit options.attempts call (limit-is_zero options.attempts h) in
        elim (Bool-cases (goes_on options attempt ctx_err call)) [
          | inr stop ↦
              let (e, failed) = last_failure call last s stop in
              let ended = retry_from-stop options attempt ctx_err fuel call last w stop in
              let reached = sym bound ∙ stop in
              (
                e,
                w,
                ended ∙ ap (λ l. some (returned options attempt ctx_err l, w)) failed,
                ground arith,
              )
          | inl go ↦
              let (x, u, step, count) = round-next call last w in
              let before = sym bound ∙ go in
              let (e, w', ends, total) =
                retry_from-fails fuel (call + 1) (some x) u tt h (ground arith) (omega arith) in
              (
                e,
                w',
                retry_from-next options attempt ctx_err fuel call last w go step ∙ ends,
                omega arith,
              )
        ]

    -- With a number of attempts above zero, if every attempt fails with a failure that `Stop` does not mark,
    -- and neither the context nor the wait ends the loop, `Retry` makes exactly the allowed number of calls
    -- and returns an error.
    pub retry_exhausted :
        (w : W)
        → 0 < limit options.attempts
        → (e : Failure E) × (w' : W) × (retry options attempt ctx_err (limit options.attempts + 1) w
            ≡ some (err e, w'))
          × (calls w' ≡ calls w + limit options.attempts)
    unfolding retry
    retry_exhausted w h =
        let (e, w', ends, total) =
          retry_from-fails (limit options.attempts + 1) 0 none w (limit-starts options.attempts h) h
            (omega arith) (omega arith) in
        (e, w', ends, omega arith)
