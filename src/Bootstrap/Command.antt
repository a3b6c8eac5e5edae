-- ===== src/Bootstrap/Command.antt =====
-- templates/entrypoints/internal/bootstrap/command.go: the commands of a container.
pub mod Dispatch
pub mod Storage
use zabbix_docker.Base.{
  ℕ, String, refl, not, Option, none, some, List, [], ◌∷◌, starts_with, if◌then◌else◌, ◌==◌, nat_eq,
  char_eq, string_eq, list_eq, is_empty,
}
use zabbix_docker.Base.Exec.{Exec, pure, raise, ◌>>=◌, wrap_err}
use zabbix_docker.Bootstrap.Environment.{Environment}

-- The errors that the entrypoints make themselves, and those of the functions that they are given.
pub data CommandError (E : Type 0) : Type 0 where
  failed : E → CommandError E
  empty_command : CommandError E
  execute_failed : String → E → CommandError E
  not_supported : String → CommandError E
  takes_no_arguments : String → CommandError E
  no_history_schemas : CommandError E
  no_telemetry_schemas : CommandError E

-- The exit status; `exit_error` is what `errors.As` finds of an `exec.ExitError` in the chain.
unfoldable pub exit_code : {E : Type 0} → (E → Option ℕ) → Option E → ℕ
exit_code exit_error none = 0
exit_code exit_error (some e) = elim (exit_error e) [ some status ↦ status | none ↦ 1 ]

-- The arguments of the service, or `none` for a custom command.
unfoldable pub service_args : List String → String → Option (List String)
service_args [] service = some []
service_args (first ∷ rest) service =
    if first == service
    then some rest
    else if starts_with first "-"
    then some (first ∷ rest)
    else none

unfoldable pub resolve_command : List String → String → List String
resolve_command args binary = elim (service_args args binary) [
  | some rest ↦ binary ∷ rest
  | none ↦ args
]

-- `W` is the state of the world outside the environment. `prepare` and its kin return the environment that
-- they leave, which Go shares by the map.
abbrev pub Entrypoint : Type 0 → Type 0 → Type 0
Entrypoint W E = Environment → List String → Exec W (CommandError E) (Unit {0})

-- `prepare func(Environment) (int, error)`
abbrev pub Handler : Type 0 → Type 0 → Type 0
Handler W E = Environment → Exec W (CommandError E) ℕ

abbrev pub first_of_command : List String → String
first_of_command [] = ""
first_of_command (first ∷ rest) = first

abbrev pub no_schemas : {E : Type 0} → String → CommandError E
no_schemas command =
    if command == "init_db_history_providers" then no_history_schemas else no_telemetry_schemas

module _ {W E : Type 0} where
  -- The hand-over to the binary is the parameter.
  module _ (execute_process : List String → Environment → Exec W E (Unit {0})) where
    unfoldable pub execute : List String → Environment → Exec W (CommandError E) (Unit {0})
    execute [] env = raise empty_command
    execute (first ∷ rest) env =
        wrap_err (execute_failed first) (execute_process (first ∷ rest) env)

    unfoldable pub service :
        String → (Environment → Exec W (CommandError E) Environment) → Entrypoint W E
    service binary prepare env args =
        let command = resolve_command args binary in
        if first_of_command command == binary
        then (do env' ← prepare env; execute command env')
        else execute command env

    unfoldable pub db_service :
        String
        → (Environment → Exec W (CommandError E) Environment)
        → (Environment → Exec W (CommandError E) (Unit {0}))
        → Entrypoint W E
    db_service binary prepare init_db env args =
        let command = resolve_command args binary in
        if first_of_command command == binary
        then (do env' ← prepare env; execute command env')
        else if first_of_command command == "init_db_only"
        then init_db env
        else execute command env

  -- What follows the choice of the handler; `none` is a nil handler.
  unfoldable pub run_handler :
      String → List String → Option (Handler W E) → Environment → Exec W (CommandError E) (Unit {0})
  run_handler first rest none env = raise (not_supported first)
  run_handler first rest (some prepare) env =
      if not (is_empty rest)
      then raise (takes_no_arguments first)
      else do count ← prepare env; if count == 0 then raise (no_schemas first) else pure tt

  unfoldable pub storage_init_entrypoint :
      Entrypoint W E → Option (Handler W E) → Option (Handler W E) → Entrypoint W E
  unfolding run_handler
  storage_init_entrypoint next history telemetry env [] = next env []
  storage_init_entrypoint next history telemetry env (first ∷ rest) =
      if first == "init_db_history_providers"
      then run_handler first rest history env
      else if first == "init_db_telemetry"
      then run_handler first rest telemetry env
      else next env (first ∷ rest)
