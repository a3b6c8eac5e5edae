-- ===== src/Bootstrap/Command/Storage.antt =====
-- The commands that initialize a storage.
use zabbix_docker.Base.{
  ℕ, String, ◌≡◌, refl, sym, ap, ◌∙◌, ◌≢◌, ◌⊎◌, inl, inr, Option, none, some, List, [], ◌∷◌, arith,
  if◌then◌else◌, Bool-cases, ◌==◌, nat_eq, char_eq, string_eq, list_eq, Result, ok, err,
  Result-cases, is_empty,
}
use zabbix_docker.Bootstrap.Environment.{Environment}
use zabbix_docker.Bootstrap.Command.{
  CommandError, Entrypoint, Handler, run_handler, storage_init_entrypoint,
}

-- A storage command that ends without an error was given its handler and no further argument, and the
-- handler initialized at least one schema.
run_handler-ok :
    {W E : Type 0} (first : String) (rest : List String) (handler : Option (Handler W E))
    (env : Environment) (w w' : W)
    → run_handler first rest handler env w ≡ (ok tt, w')
    → (prepare : Handler W E) × (count : ℕ) × (handler ≡ some prepare)
      × (rest ≡ [])
      × (count ≢ 0)
      × (prepare env w ≡ (ok count, w'))
unfolding run_handler is_empty
run_handler-ok {W} {E} first rest none env w w' h = cc
run_handler-ok {W} {E} first (x ∷ rest) (some prepare) env w w' h = cc
run_handler-ok {W} {E} first [] (some prepare) env w w' h = elim (Result-cases (prepare env w).0) [
  | inr (e, f) ↦ cc (rw (f, run_handler) at h)
  | inl (count, f) ↦ elim (Bool-cases (count == 0)) [
    | inl zero_count ↦ cc (rw zero_count at (rw (f, run_handler) at h))
    | inr more ↦
        let same : (prepare env w).1 ≡ w' =
          ap (λ (p : Result (CommandError E) (Unit {0}) × W). p.1)
            (rw more at (rw (f, run_handler) at h)) in
        (prepare, count, refl, refl, ground arith, λ i. (f i, same i))
  ]
]

abbrev pub storage_handler :
    {W E : Type 0} → String → Option (Handler W E) → Option (Handler W E) → Option (Handler W E)
storage_handler first history telemetry =
    if first == "init_db_history_providers" then history else telemetry

storage_init_entrypoint-run :
    {W E : Type 0} (next : Entrypoint W E) (history telemetry : Option (Handler W E))
    (env : Environment) (first : String) (rest : List String) (w : W)
    → (first ≡ "init_db_history_providers") ⊎ (first ≡ "init_db_telemetry")
    → storage_init_entrypoint next history telemetry env (first ∷ rest) w
      ≡ run_handler first rest (storage_handler first history telemetry) env w
unfolding storage_init_entrypoint
storage_init_entrypoint-run next history telemetry env first rest w (inl e) = rw e
storage_init_entrypoint-run next history telemetry env first rest w (inr e) = rw e

-- What a run that ends without an error has done.
abbrev pub IsInitialized :
    {W E : Type 0}
    → Option (Handler W E)
    → List String
    → Environment
    → W
    → Result (CommandError E) (Unit {0})
    → W
    → Type 0
IsInitialized {W} {E} handler rest env w (ok _) w' =
    (prepare : Handler W E) × (count : ℕ) × (handler ≡ some prepare)
    × (rest ≡ [])
    × (count ≢ 0)
    × (prepare env w ≡ (ok count, w'))
IsInitialized handler rest env w (err e) w' = Unit

run_handler-IsInitialized :
    {W E : Type 0} (first : String) (rest : List String) (handler : Option (Handler W E))
    (env : Environment) (w : W)
    → IsInitialized handler rest env w
        (run_handler first rest handler env w).0
        (run_handler first rest handler env w).1
run_handler-IsInitialized first rest handler env w =
    elim (Result-cases (run_handler first rest handler env w).0) [
      | inl (_, e) ↦
          rw e (
            run_handler-ok first rest handler env w (run_handler first rest handler env w).1 (cc e))
      | inr (x, e) ↦ rw e tt
    ]

-- A storage command does the same whatever entrypoint is wrapped, so this one is never reached. It ends
-- without an error only if the image has a handler for it, no argument follows it, and the handler, run
-- once on the environment as it is, initialized at least one schema.
pub storage_init_entrypoint-IsInitialized :
    {W E : Type 0} (next other : Entrypoint W E) (history telemetry : Option (Handler W E))
    (env : Environment) (first : String) (rest : List String) (w : W)
    → (first ≡ "init_db_history_providers") ⊎ (first ≡ "init_db_telemetry")
    → (storage_init_entrypoint next history telemetry env (first ∷ rest) w
        ≡ storage_init_entrypoint other history telemetry env (first ∷ rest) w)
      × IsInitialized
          (storage_handler first history telemetry)
          rest
          env
          w
          (storage_init_entrypoint next history telemetry env (first ∷ rest) w).0
          (storage_init_entrypoint next history telemetry env (first ∷ rest) w).1
storage_init_entrypoint-IsInitialized next other history telemetry env first rest w command =
    let run = storage_init_entrypoint-run next history telemetry env first rest w command in
    (
      run ∙ sym (storage_init_entrypoint-run other history telemetry env first rest w command),
      rw run (run_handler-IsInitialized first rest (storage_handler first history telemetry) env w),
    )
