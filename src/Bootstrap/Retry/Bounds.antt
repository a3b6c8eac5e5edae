-- ===== src/Bootstrap/Retry/Bounds.antt =====
-- How often `Retry` calls the attempt.
use mathlib.Core.Option.{none-ne-some, some-injective}
use zabbix_docker.Base.{
  ℕ, zero, suc, ◌+◌, ◌≤◌, ◌≡◌, sym, ap, ◌∙◌, inl, inr, false, Option, none, some, arith, Bool-cases,
  nat_eq, char_eq, string_eq, list_eq, Result,
}
use zabbix_docker.Bootstrap.Retry.{
  Failure, RetryOptions, is_zero, retry_from, retry, round, try_once, after_failure, Round, notify,
  pause, goes_on, return_with, next_round,
}
use zabbix_docker.Bootstrap.Retry.Steps.{
  limit, goes_on-limit, Round-cases, retry_from-zero, retry_from-stop, retry_from-return,
  retry_from-next, retry_from_total,
}

module _ {W E : Type 0} (options : RetryOptions W E)
    (attempt : W → Result (Failure E) (Unit {0}) × W) (ctx_err : W → Option (Failure E)) where
  module _ (calls : W → ℕ) (attempt_counts : (w : W) → calls (attempt w).1 ≤ calls w + 1)
      (wait_counts : (w : W) → calls (options.wait w).1 ≤ calls w)
      (notify_counts : (last : Option (Failure E)) (w : W)
        → calls (notify options.on_retry last w) ≤ calls w) where
    abbrev calls_of : Round W E → ℕ
    calls_of (return_with x w) = calls w
    calls_of (next_round e w) = calls w

    after_failure-calls :
        (e : Failure E) (w : W) → calls_of (after_failure options attempt ctx_err e w) ≡ calls w
    unfolding after_failure
    after_failure-calls e w = ground arith

    try_once-calls : (w : W) → calls_of (try_once options attempt ctx_err w) ≤ calls w + 1
    unfolding try_once
    try_once-calls w =
        ground (arith, attempt_counts w, λ (e : Failure E). after_failure-calls e (attempt w).1)

    pause-calls :
        (call : ℕ) (last : Option (Failure E)) (w : W)
        → calls (pause options attempt ctx_err call last w).1 ≤ calls w
    pause-calls call last w =
        ground (arith, wait_counts (notify options.on_retry last w), notify_counts last w)

    -- A round that goes on has made one call, and one that returns has made at most one.
    round-calls :
        (call : ℕ) (last : Option (Failure E)) (w : W)
        → calls_of (round options attempt ctx_err call last w) ≤ calls w + 1
    unfolding round
    round-calls call last w = ground (
      arith,
      pause-calls call last w,
      try_once-calls (pause options attempt ctx_err call last w).1,
    )

    retry_from-calls :
        (fuel call : ℕ) (last : Option (Failure E)) (w w' : W) (r : Result (Failure E) (Unit {0}))
        → is_zero options.attempts ≡ false
        → call ≤ limit options.attempts
        → retry_from options attempt ctx_err fuel call last w ≡ some (r, w')
        → calls w' + call ≤ calls w + limit options.attempts
    retry_from-calls zero call last w w' r h c e =
        absurd
          (none-ne-some (r, w') (sym (retry_from-zero options attempt ctx_err call last w) ∙ e))
    retry_from-calls (suc fuel) call last w w' r h c e =
        elim (Bool-cases (goes_on options attempt ctx_err call)) [
          | inr stop ↦
              let same : w ≡ w' =
                ap (λ (p : Result (Failure E) (Unit {0}) × W). p.1)
                  (some-injective _ _
                    (sym (retry_from-stop options attempt ctx_err fuel call last w stop) ∙ e)) in
              omega (arith, ap calls same)
          | inl go ↦ elim (Round-cases (round options attempt ctx_err call last w)) [
            | inl (x, u, s) ↦
                let same : u ≡ w' =
                  ap (λ (p : Result (Failure E) (Unit {0}) × W). p.1)
                    (some-injective _ _ (
                      sym (retry_from-return options attempt ctx_err fuel call last w go s) ∙ e)) in
                ground (arith, ap calls same, ap calls_of s, round-calls call last w)
            | inr (x, u, s) ↦
                let before = sym (goes_on-limit options.attempts call h) ∙ go in
                ground (
                  arith,
                  ap calls_of s,
                  round-calls call last w,
                  retry_from-calls fuel (call + 1) (some x) u w' r h (ground arith)
                      (sym (retry_from-next options attempt ctx_err fuel call last w go s) ∙ e),
                )
          ]
        ]

    -- With a number of attempts other than zero, where a negative one allows none, the loop ends, given one
    -- unit of fuel more than the limit, and has then counted no more than the limit allows, when an attempt counts at most one and a wait and a note of
    -- the failure count nothing.
    pub retry_calls :
        (w : W)
        → is_zero options.attempts ≡ false
        → (r : Result (Failure E) (Unit {0})) × (w' : W) × (retry options attempt ctx_err
              (limit options.attempts + 1)
              w
            ≡ some (r, w'))
          × (calls w' ≤ calls w + limit options.attempts)
    unfolding retry
    retry_calls w h =
        let ((r, w'), e) =
          retry_from_total options attempt ctx_err (limit options.attempts + 1) 0 none w h
            (omega arith) (omega arith) in
        (
          r,
          w',
          e,
          omega (
            arith,
            retry_from-calls (limit options.attempts + 1) 0 none w w' r h (omega arith) e,
          ),
        )
