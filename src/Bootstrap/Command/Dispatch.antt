-- ===== src/Bootstrap/Command/Dispatch.antt =====
-- Which command a container runs, by its arguments.
use text.Mathlib.TextEquality.{starts_with_iff}
use zabbix_docker.Base.{
  String, ◌<>◌, starts_with, ◌≡◌, refl, ap, ◌≢◌, ◌⊎◌, inl, inr, false, none, some, List, [], ◌∷◌,
  arith, if◌then◌else◌, Bool-cases, ◌==◌, nat_eq, char_eq, string_eq, list_eq, beq_refl,
}
use zabbix_docker.Base.Exec.{Exec, ◌>>=◌}
use zabbix_docker.Bootstrap.Environment.{Environment}
use zabbix_docker.Bootstrap.Command.{
  CommandError, service_args, resolve_command, first_of_command, execute, db_service,
}

-- The argument is an option.
abbrev pub IsOption : String → Type 0
IsOption argument = (rest : String) × ("-" <> rest ≡ argument)

module _ (binary : String) where
  -- The arguments select the service: none, the binary and more, or arguments of which the first is an
  -- option; and these are the ones for the binary.
  abbrev pub Selects : List String → List String → Type 0
  Selects args more =
      ((args ≡ []) × (more ≡ []))
      ⊎ (args ≡ binary ∷ more)
      ⊎ ((first : String) × (rest : List String) × (args ≡ first ∷ rest)
          × (first ≢ binary)
          × IsOption first
          × (more ≡ args))

  -- The arguments are another command.
  abbrev pub IsCustom : List String → Type 0
  IsCustom args =
      (first : String) × (rest : List String) × (args ≡ first ∷ rest)
      × (first ≢ binary)
      × (¬ (IsOption first))

  service_args-cases :
      (args : List String)
      → ((more : List String) × (service_args args binary ≡ some more) × Selects args more)
        ⊎ ((service_args args binary ≡ none) × IsCustom args)
  unfolding service_args
  service_args-cases [] = inl ([], refl, inl (refl, refl))
  service_args-cases (first ∷ rest) = elim (Bool-cases (first == binary)) [
    | inl e ↦
        inl (rest, rw e refl, inr (inl (ap (λ a. a ∷ rest) ((string_eq.beq_iff first binary).0 e))))
    | inr n ↦
        let differs : first ≢ binary = λ same. cc (n, (string_eq.beq_iff first binary).1 same) in
        elim (Bool-cases (starts_with first "-")) [
          | inl t ↦ inl (
            first ∷ rest,
            rw n (rw t refl),
            inr (inr (first, rest, refl, differs, (starts_with_iff first "-").0 t, refl)),
          )
          | inr f ↦ inr (
            rw n (rw f refl),
            (first, rest, refl, differs, λ option. cc (f, (starts_with_iff first "-").1 option)),
          )
        ]
  ]

module _ {W E : Type 0} (execute_process : List String → Environment → Exec W E (Unit {0}))
    (binary : String) (prepare : Environment → Exec W (CommandError E) Environment)
    (init_db : Environment → Exec W (CommandError E) (Unit {0})) where
  not_binary :
      (args : List String)
      → service_args args binary ≡ none
      → (first_of_command args == binary) ≡ false
  unfolding service_args
  not_binary [] h = cc
  not_binary (first ∷ rest) h = ground arith

  resolve_command-some :
      (args more : List String)
      → service_args args binary ≡ some more
      → resolve_command args binary ≡ binary ∷ more
  unfolding resolve_command
  resolve_command-some args more h = rw (h, resolve_command)

  resolve_command-none :
      (args : List String) → service_args args binary ≡ none → resolve_command args binary ≡ args
  unfolding resolve_command
  resolve_command-none args h = rw (h, resolve_command)

  selected :
      (args more : List String)
      → service_args args binary ≡ some more
      → (env : Environment) (w : W)
      → db_service execute_process binary prepare init_db env args w
        ≡ (prepare env >>= execute execute_process (binary ∷ more)) w
  unfolding db_service
  selected args more h env w =
      rw (resolve_command-some args more h, db_service) (rw (beq_refl binary))

  custom :
      (args : List String)
      → service_args args binary ≡ none
      → (env : Environment) (w : W)
      → db_service execute_process binary prepare init_db env args w
        ≡ (if first_of_command args == "init_db_only"
              then init_db env
              else execute execute_process args env)
            w
  unfolding db_service
  custom args h env w = rw (resolve_command-none args h, db_service) (rw (not_binary args h))

  -- If there are no arguments, or the first is the binary or an option, the service is prepared and its binary
  -- gets the arguments behind its name, in the environment that the preparation left; if the preparation
  -- fails nothing is executed. Any other command is executed as it is given, in the environment as it is,
  -- and nothing is prepared; but for `init_db_only`, which initializes the database and executes nothing.
  pub db_service-chosen :
      (env : Environment) (args : List String) (w : W)
      → ((more : List String) × Selects binary args more
          × (db_service execute_process binary prepare init_db env args w
              ≡ (prepare env >>= execute execute_process (binary ∷ more)) w))
        ⊎ (IsCustom binary args
            × ((rest : List String) × (args ≡ "init_db_only" ∷ rest))
            × (db_service execute_process binary prepare init_db env args w ≡ init_db env w))
        ⊎ (IsCustom binary args
            × (¬ ((rest : List String) × (args ≡ "init_db_only" ∷ rest)))
            × (db_service execute_process binary prepare init_db env args w
                ≡ execute execute_process args env w))
  unfolding service_args
  db_service-chosen env [] w = inl ([], inl (refl, refl), selected [] [] refl env w)
  db_service-chosen env (first ∷ rest) w = elim (service_args-cases binary (first ∷ rest)) [
    | inl (more, h, selects) ↦ inl (more, selects, selected (first ∷ rest) more h env w)
    | inr (h, other) ↦ elim (Bool-cases (first == "init_db_only")) [
      | inl e ↦ inr (
          inl (
            other,
            (rest, ap (λ a. a ∷ rest) ((string_eq.beq_iff first "init_db_only").0 e)),
            rw e at (custom (first ∷ rest) h env w),
          ))
      | inr n ↦ inr (
          inr (
            other,
            λ (more, same).
                let first_same : first ≡ "init_db_only" = cc same in
                cc (n, (string_eq.beq_iff first "init_db_only").1 first_same),
            rw n at (custom (first ∷ rest) h env w),
          ))
    ]
  ]
