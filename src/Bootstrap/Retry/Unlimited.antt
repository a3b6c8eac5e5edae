-- ===== src/Bootstrap/Retry/Unlimited.antt =====
-- `Retry` without a limit on the attempts: that it comes to an end when the attempts come to succeed.
use zabbix_docker.Base.{
  ℕ, zero, suc, ◌+◌, ◌≤◌, ◌<◌, ◌≡◌, ◌∙◌, ◌⊎◌, inl, inr, true, Option, none, some, arith, nat_eq,
  char_eq, string_eq, list_eq, Result, ok, err, Result-cases,
}
use zabbix_docker.Bootstrap.Retry.{
  Failure, as_stop, RetryOptions, is_zero, retry_from, retry, round, try_once, after_failure, Round,
  notify, pause, goes_on, return_with, next_round,
}
use zabbix_docker.Bootstrap.Retry.Steps.{retry_from-return, retry_from-next}

module _ {W E : Type 0} (options : RetryOptions W E)
    (attempt : W → Result (Failure E) (Unit {0}) × W) (ctx_err : W → Option (Failure E))
    (patience : W → ℕ) where
  -- An attempt that fails is not marked by `Stop`, and brings the success nearer.
  abbrev pub Advances : W → Result (Failure E) (Unit {0}) → W → Type 0
  Advances w (ok _) w' = Unit
  Advances w (err e) w' = (as_stop e ≡ none) × (patience w' < patience w)

  module _ (no_limit : is_zero options.attempts ≡ true)
      (wait_ok : (w : W) → (options.wait w).0 ≡ ok tt) (running : (w : W) → ctx_err w ≡ none)
      (progress : (w : W) → Advances w (attempt w).0 (attempt w).1)
      (wait_keeps : (w : W) → patience (options.wait w).1 ≤ patience w)
      (notify_keeps : (last : Option (Failure E)) (w : W)
        → patience (notify options.on_retry last w) ≤ patience w) where
    abbrev Moves : ℕ → Round W E → Type 0
    Moves n r =
        ((u : W) × (r ≡ return_with (ok tt) u))
        ⊎ ((e : Failure E) × (u : W) × (r ≡ next_round e u) × (patience u < n))

    try_once-Moves : (w : W) → Moves (patience w) (try_once options attempt ctx_err w)
    unfolding try_once after_failure
    try_once-Moves w = elim (Result-cases (attempt w).0) [
      | inl (_, e) ↦ inl ((attempt w).1, rw (e, try_once))
      | inr (x, e) ↦
          let advance : Advances w (err x) (attempt w).1 = rw e at (progress w) in
          inr (
            x,
            (attempt w).1,
            rw (e, try_once) (rw (advance.0, after_failure) (rw (running, after_failure))),
            advance.1,
          )
    ]

    round-Moves :
        (call : ℕ) (last : Option (Failure E)) (w : W)
        → Moves (patience w) (round options attempt ctx_err call last w)
    unfolding round
    round-Moves call last w =
        let p = pause options attempt ctx_err call last w in
        let paused : p.0 ≡ ok tt = ground (arith, wait_ok (notify options.on_retry last w)) in
        let kept : patience p.1 ≤ patience w =
          ground (arith, wait_keeps (notify options.on_retry last w), notify_keeps last w) in
        elim (try_once-Moves p.1) [
          | inl (u, e) ↦ inl (u, rw (paused, round) e)
          | inr (x, u, e, n) ↦ inr (x, u, rw (paused, round) e, omega arith)
        ]

    retry_from-until :
        (fuel call : ℕ) (last : Option (Failure E)) (w : W)
        → patience w < fuel
        → (w' : W) × (retry_from options attempt ctx_err fuel call last w ≡ some (ok tt, w'))
    retry_from-until zero call last w n = absurd (omega arith)
    retry_from-until (suc fuel) call last w n =
        let go : goes_on options attempt ctx_err call ≡ true = rw no_limit in
        elim (round-Moves call last w) [
          | inl (u, e) ↦ (u, retry_from-return options attempt ctx_err fuel call last w go e)
          | inr (x, u, e, m) ↦
              let (w', t) = retry_from-until fuel (call + 1) (some x) u (omega arith) in
              (w', retry_from-next options attempt ctx_err fuel call last w go e ∙ t)
        ]

    -- Without a limit on the attempts Retry returns nil at last, when the wait succeeds, the context stays
    -- open, and every attempt that fails is not marked by `Stop` and lowers a measure, which the waits and
    -- notes of a failure do not raise: fuel above the measure is enough.
    pub retry_until :
        (fuel : ℕ) (w : W)
        → patience w < fuel
        → (w' : W) × (retry options attempt ctx_err fuel w ≡ some (ok tt, w'))
    unfolding retry
    retry_until fuel w n = retry_from-until fuel 0 none w n
