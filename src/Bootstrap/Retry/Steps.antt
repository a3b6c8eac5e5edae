-- ===== src/Bootstrap/Retry/Steps.antt =====
-- The loop of `Retry`, one round at a time.
use zabbix_docker.Base.{
  ℕ, zero, suc, ◌+◌, ◌≤◌, ◌<◌, ◌≡◌, refl, sym, ◌∙◌, ◌⊎◌, ◌||◌, ltb, inl, inr, true, false, Option,
  none, some, arith, Bool-cases, nat_eq, char_eq, string_eq, list_eq, Result,
}
use zabbix_docker.Bootstrap.Retry.{
  Failure, RetryOptions, retry_from, round, Round, returned, is_zero, below, goes_on, return_with,
  next_round,
}
use zabbix_docker.Base.Decimal.{ℤ, pos, negsuc}

pub Round-cases :
    {W E : Type 0} (r : Round W E)
    → ((x : Result (Failure E) (Unit {0})) × (w : W) × (r ≡ return_with x w))
      ⊎ ((e : Failure E) × (w : W) × (r ≡ next_round e w))
Round-cases (return_with x w) = inl (x, w, refl)
Round-cases (next_round e w) = inr (e, w, refl)

-- How often the loop runs at most, when the number of attempts is not zero.
abbrev pub limit : ℤ → ℕ
limit (pos n) = n
limit (negsuc _) = 0

pub goes_on-limit :
    (attempts : ℤ) (call : ℕ)
    → is_zero attempts ≡ false
    → (is_zero attempts || below call attempts) ≡ ltb call (limit attempts)
goes_on-limit (pos n) call h = rw h refl
goes_on-limit (negsuc n) call h = ground arith

module _ {W E : Type 0} (options : RetryOptions W E)
    (attempt : W → Result (Failure E) (Unit {0}) × W) (ctx_err : W → Option (Failure E)) where
  pub retry_from-zero :
      (call : ℕ) (last : Option (Failure E)) (w : W)
      → retry_from options attempt ctx_err zero call last w ≡ none
  unfolding retry_from
  retry_from-zero call last w = refl

  pub retry_from-stop :
      (fuel call : ℕ) (last : Option (Failure E)) (w : W)
      → goes_on options attempt ctx_err call ≡ false
      → retry_from options attempt ctx_err (suc fuel) call last w
        ≡ some (returned options attempt ctx_err last, w)
  unfolding retry_from
  retry_from-stop fuel call last w h = rw h

  pub retry_from-return :
      (fuel call : ℕ) (last : Option (Failure E)) (w : W) {x : Result (Failure E) (Unit {0})}
      {u : W}
      → goes_on options attempt ctx_err call ≡ true
      → round options attempt ctx_err call last w ≡ return_with x u
      → retry_from options attempt ctx_err (suc fuel) call last w ≡ some (x, u)
  unfolding retry_from
  retry_from-return fuel call last w h e = rw h (rw e)

  pub retry_from-next :
      (fuel call : ℕ) (last : Option (Failure E)) (w : W) {x : Failure E} {u : W}
      → goes_on options attempt ctx_err call ≡ true
      → round options attempt ctx_err call last w ≡ next_round x u
      → retry_from options attempt ctx_err (suc fuel) call last w
        ≡ retry_from options attempt ctx_err fuel (call + 1) (some x) u
  unfolding retry_from
  retry_from-next fuel call last w h e = rw h (rw e)

  -- With a limit on the attempts, one unit of fuel more than the limit is enough.
  pub retry_from_total :
      (fuel call : ℕ) (last : Option (Failure E)) (w : W)
      → is_zero options.attempts ≡ false
      → limit options.attempts < fuel + call
      → call ≤ limit options.attempts
      → (r : Result (Failure E) (Unit {0}) × W) × (retry_from options attempt ctx_err fuel call last
            w
          ≡ some r)
  retry_from_total zero call last w h f c = absurd (omega arith)
  retry_from_total (suc fuel) call last w h f c =
      elim (Bool-cases (goes_on options attempt ctx_err call)) [
        | inr stop ↦ (_, retry_from-stop fuel call last w stop)
        | inl go ↦ elim (Round-cases (round options attempt ctx_err call last w)) [
          | inl (x, u, e) ↦ ((x, u), retry_from-return fuel call last w go e)
          | inr (x, u, e) ↦
              let before = sym (goes_on-limit options.attempts call h) ∙ go in
              let (r, t) =
                retry_from_total fuel (call + 1) (some x) u h (omega arith) (ground arith) in
              (r, retry_from-next fuel call last w go e ∙ t)
        ]
      ]
