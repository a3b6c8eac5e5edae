-- ===== src/Tests/BootstrapTests.antt =====
-- The environment, the indexed variables, the commands, the secrets and the repeated attempts, at concrete
-- inputs.
use zabbix_docker.Base.{
  ℕ, ◌+◌, ◌≤◌, ◌<◌, inl, String, ◌≡◌, refl, ◌≢◌, ◌↔◌, ◌⊎◌, inr, true, false, Option, none, some,
  List, [], ◌∷◌, arith, nat_eq, char_eq, string_eq, list_eq, list_beq, Result, ok, err, get_elem?,
  is_empty, In, here, there, chars, of_text, cut_prefix,
}
use zabbix_docker.Base.Exec.{Exec, pure, raise, ◌>>=◌}
use zabbix_docker.Base.Dict.{lookup, insert, erase}
use zabbix_docker.Base.Decimal.{pos, itoa, atoi, digits_value, max_int}
use zabbix_docker.Base.Sort.{sort, insert_sorted}
use zabbix_docker.Base.Paths.{join_paths}
use zabbix_docker.Bootstrap.Os.{not_exist}
use zabbix_docker.Bootstrap.Environment.{Environment, get, list, new_environment, clear_private_env}
use zabbix_docker.Bootstrap.Environment.Clearing.{IsPrivate, lookup-clear_private_env}
use zabbix_docker.Bootstrap.Environment.RoundTrip.{new_environment-list}
use zabbix_docker.Bootstrap.Indexed.{
  IndexedVariable, indexed_name, indexed_suffix, parse_indexed_number, check_unindexed,
  read_variable, read_variables, check_consecutive, collect_indexed,
}
use zabbix_docker.Bootstrap.Indexed.Number.{parse_indexed_number_iff}
use zabbix_docker.Bootstrap.Indexed.Consecutive.{
  collect_indexed_sound, collect_indexed_complete, collect_indexed_order,
}
use zabbix_docker.Base.Decimal.{parse_uint16}
use zabbix_docker.Bootstrap.Database.{resolve_db_port, invalid_db_server_port}
use zabbix_docker.Bootstrap.Database.Settings.{resolve_db_port-published}
use zabbix_docker.Bootstrap.Command.{
  CommandError, empty_command, execute, db_service, storage_init_entrypoint, Handler, Entrypoint,
}
use zabbix_docker.Bootstrap.Command.Dispatch.{Selects, IsCustom, db_service-chosen}
use zabbix_docker.Bootstrap.Command.Storage.{storage_handler, storage_init_entrypoint-IsInitialized}
use zabbix_docker.Bootstrap.Retry.{Failure, plain, as_stop, RetryOptions, retry, retry_from, round}
use zabbix_docker.Bootstrap.Retry.Bounds.{retry_calls}
use zabbix_docker.Bootstrap.Retry.Results.{retry_success, retry_exhausted}
use zabbix_docker.Bootstrap.SecretRegistry.ComponentPlan.{alias}
use zabbix_docker.Bootstrap.SecretRegistry.{FileSecretSpec, SecretAlias}
use zabbix_docker.Bootstrap.SecretFiles.{
  SecretRoots, SecretFiles, normalize_secret_alias, resolve_file_secret,
}
use zabbix_docker.Bootstrap.SecretFiles.Alias.{merged, normalize_secret_alias-merged}
use zabbix_docker.Bootstrap.Secrets.{resolve_file_secrets}
use zabbix_docker.Bootstrap.Secrets.Hidden.{resolve_file_secrets-hides}
use zabbix_docker.Base.Lists.{All}
use zabbix_docker.Bootstrap.SecretFiles.Resolved.{resolve_file_secret-hides}

abbrev indexed_env : Environment
indexed_env = ("KEY_1", "b") ∷ ("HOME", "/") ∷ ("KEY_0", "a") ∷ []

abbrev other_order : Environment
other_order = ("HOME", "/") ∷ ("KEY_0", "a") ∷ ("KEY_1", "b") ∷ []

abbrev key_prefixes : List String
key_prefixes = "KEY" ∷ []

abbrev two_keys : List IndexedVariable
two_keys =
    record { index = 0; name = "KEY_0"; prefix = "KEY" }
    ∷ record { index = 1; name = "KEY_1"; prefix = "KEY" }
    ∷ []

-- The variables are collected in the order of their indices.
indexed_env-collected : collect_indexed indexed_env key_prefixes true ≡ ok two_keys
unfolding collect_indexed check_unindexed read_variables read_variable check_consecutive
    indexed_suffix parse_indexed_number chars of_text cut_prefix sort insert_sorted atoi
    digits_value itoa list_beq lookup
indexed_env-collected = refl

other_order-collected : collect_indexed other_order key_prefixes true ≡ ok two_keys
unfolding collect_indexed check_unindexed read_variables read_variable check_consecutive
    indexed_suffix parse_indexed_number chars of_text cut_prefix sort insert_sorted atoi
    digits_value itoa list_beq lookup
other_order-collected = refl

collect_indexed_sound_example :
    (value : String) × (◌≡◌ {A = ℕ} 1 1)
    × ("KEY_1" ≡ indexed_name "KEY" 1)
    × In "KEY" key_prefixes
    × In ("KEY_1", value) indexed_env
    × (value ≢ "")
collect_indexed_sound_example =
    collect_indexed_sound indexed_env key_prefixes true two_keys 1
      (record { index = 1; name = "KEY_1"; prefix = "KEY" }) indexed_env-collected refl

collect_indexed_complete_example :
    get_elem? two_keys 1 ≡ some (record { index = 1; name = indexed_name "KEY" 1; prefix = "KEY" })
unfolding indexed_name itoa of_text
collect_indexed_complete_example =
    collect_indexed_complete indexed_env key_prefixes true two_keys "b" "KEY" 1
      indexed_env-collected (here refl) (here refl) (omega arith)

same_variables : (e : String × String) → In e indexed_env ↔ In e other_order
same_variables e = (
  λ m. elim m [
    | here h ↦ there (there (here h))
    | there n ↦ elim n [
      | here h ↦ here h
      | there k ↦ elim k [ here h ↦ there (here h) | there l ↦ elim l [ ] ]
    ]
  ],
  λ m. elim m [
    | here h ↦ there (here h)
    | there n ↦ elim n [
      | here h ↦ there (there (here h))
      | there k ↦ elim k [ here h ↦ here h | there l ↦ elim l [ ] ]
    ]
  ],
)

collect_indexed_order_example : two_keys ≡ two_keys
collect_indexed_order_example =
    collect_indexed_order indexed_env other_order key_prefixes true two_keys two_keys same_variables
      indexed_env-collected other_order-collected

parse_indexed_number_iff_example :
    (parse_indexed_number "12" ≡ some 12) ↔ ((chars "12" ≡ itoa 12) × (12 ≤ max_int))
parse_indexed_number_iff_example = parse_indexed_number_iff "12" 12

abbrev private_env : Environment
private_env = ("MYSQL_USER", "zabbix") ∷ ("PATH", "/bin") ∷ []

lookup-clear_private_env_example :
    (IsPrivate [] "MYSQL_USER"
      × (get private_env "ZBX_CLEAR_ENV" ≢ "false")
      × (lookup "MYSQL_USER" (clear_private_env private_env []) ≡ none))
    ⊎ (((get private_env "ZBX_CLEAR_ENV" ≡ "false") ⊎ (¬ (IsPrivate [] "MYSQL_USER")))
        × (lookup "MYSQL_USER" (clear_private_env private_env [])
            ≡ lookup "MYSQL_USER" private_env))
lookup-clear_private_env_example = lookup-clear_private_env private_env [] "MYSQL_USER"

new_environment-list_example :
    lookup "B" (new_environment (list (new_environment ("B=1" ∷ "A=2" ∷ []))))
    ≡ lookup "B" (new_environment ("B=1" ∷ "A=2" ∷ []))
new_environment-list_example = new_environment-list ("B=1" ∷ "A=2" ∷ []) "B"

-- The world is the list of the commands that were executed.
abbrev World : Type 0
World = List (List String)

abbrev run : List String → Environment → Exec World String (Unit {0})
run args env w = (ok tt, args ∷ w)

abbrev prepare_nothing : Environment → Exec World (CommandError String) Environment
prepare_nothing env = pure env

abbrev init_nothing : Environment → Exec World (CommandError String) (Unit {0})
init_nothing env = pure tt

abbrev started : List String → Exec World (CommandError String) (Unit {0})
started = db_service run "zabbix_server" prepare_nothing init_nothing private_env

db_service-chosen_example :
    ((more : List String) × Selects "zabbix_server" ("-c" ∷ []) more
      × (started ("-c" ∷ []) []
          ≡ (prepare_nothing private_env >>= execute run ("zabbix_server" ∷ more)) []))
    ⊎ (IsCustom "zabbix_server" ("-c" ∷ [])
        × ((rest : List String) × (("-c" ∷ []) ≡ "init_db_only" ∷ rest))
        × (started ("-c" ∷ []) [] ≡ init_nothing private_env []))
    ⊎ (IsCustom "zabbix_server" ("-c" ∷ [])
        × (¬ ((rest : List String) × (("-c" ∷ []) ≡ "init_db_only" ∷ rest)))
        × (started ("-c" ∷ []) [] ≡ execute run ("-c" ∷ []) private_env []))
db_service-chosen_example =
    db_service-chosen run "zabbix_server" prepare_nothing init_nothing private_env ("-c" ∷ []) []

abbrev one_schema : Handler World String
one_schema env = pure 1

abbrev next_entrypoint : Entrypoint World String
next_entrypoint env args = pure tt

abbrev refusing_entrypoint : Entrypoint World String
refusing_entrypoint env args = raise empty_command

storage_init_entrypoint-IsInitialized_example :
    (storage_init_entrypoint next_entrypoint none (some one_schema) [] ("init_db_telemetry" ∷ []) []
      ≡ storage_init_entrypoint refusing_entrypoint none
          (some one_schema)
          []
          ("init_db_telemetry" ∷ [])
          [])
    × ((prepare : Handler World String) × (count : ℕ) × (storage_handler "init_db_telemetry" none
            (some one_schema)
          ≡ some prepare)
        × (◌≡◌ {A = List String} [] [])
        × (count ≢ 0)
        × (prepare [] [] ≡ (ok count, [])))
unfolding storage_init_entrypoint is_empty
storage_init_entrypoint-IsInitialized_example =
    storage_init_entrypoint-IsInitialized next_entrypoint refusing_entrypoint none (some one_schema)
      [] "init_db_telemetry" [] [] (inr refl)

-- The world is the number of calls.
abbrev three_attempts : RetryOptions ℕ String
three_attempts = record { attempts = pos 3; on_retry = none; wait = λ w. (ok tt, w) }

abbrev failing : ℕ → Result (Failure String) (Unit {0}) × ℕ
failing w = (err (plain "refused"), w + 1)

abbrev succeeding : ℕ → Result (Failure String) (Unit {0}) × ℕ
succeeding w = (ok tt, w + 1)

abbrev no_cancel : ℕ → Option (Failure String)
no_cancel w = none

retry_calls_example :
    (r : Result (Failure String) (Unit {0})) × (w' : ℕ) × (retry three_attempts failing no_cancel 4
        0
      ≡ some (r, w'))
    × (w' ≤ 3)
retry_calls_example =
    retry_calls three_attempts failing no_cancel (λ w. w) (λ w. omega arith) (λ w. omega arith)
      (λ last w. omega arith) 0 refl

retry_success_example : 1 ≤ 1
unfolding retry retry_from round
retry_success_example =
    retry_success three_attempts succeeding no_cancel (λ w. 1 ≤ w) (λ w h. omega arith) 3 4 0 1 refl
      refl

retry_exhausted_example :
    (e : Failure String) × (w' : ℕ) × (retry three_attempts failing no_cancel 4 0
      ≡ some (err e, w'))
    × (w' ≡ 3)
unfolding as_stop
retry_exhausted_example =
    retry_exhausted three_attempts failing no_cancel (λ w. w) (λ w. refl)
      (λ w. (plain "refused", refl, refl)) (λ w. refl) (λ w. refl) (λ w. refl) (λ last w. refl) 0
      (omega arith)

abbrev cert_alias : SecretAlias
cert_alias = alias "ZBX_VAULTCERTFILE" "ZBX_VAULTTLSCERTFILE"

abbrev cert_env : Environment
cert_env = ("ZBX_VAULTCERTFILE", "cert.pem") ∷ []

abbrev merged_env : Environment
merged_env = ("ZBX_VAULTTLSCERTFILE", "cert.pem") ∷ []

normalize_secret_alias-merged_example :
    (lookup "ZBX_VAULTCERTFILE" merged_env ≡ none)
    × (get merged_env "ZBX_VAULTTLSCERTFILE" ≡ merged cert_alias cert_env)
unfolding normalize_secret_alias lookup insert erase
normalize_secret_alias-merged_example =
    normalize_secret_alias-merged cert_alias cert_env merged_env refl refl

abbrev roots : SecretRoots
roots = record {
  external = "/run/zabbix/secrets";
  internal = "/run/zabbix/secrets_internal";
  docker = "/run/secrets";
}

-- The world is the number of files written.
abbrev no_files : SecretFiles ℕ
no_files = record {
  stat = λ path. raise not_exist;
  eval_symlinks = λ path. raise not_exist;
  abs = λ path. pure path;
  rel = λ base path. err not_exist;
  read_file = λ path. raise not_exist;
  write_secret = λ path content w. (ok tt, w + 1);
  remove_secret = λ path. pure tt;
}

abbrev tls_key : FileSecretSpec
tls_key = record {
  inline = "ZBX_TLSKEY";
  file = "ZBX_TLSKEYFILE";
  category = "tls";
  legacy_dir = "";
  standard = false;
  active = true;
}

abbrev resolved_env : Environment
resolved_env =
    (
      "ZBX_TLSKEYFILE",
      of_text (
          join_paths
            (chars "/run/zabbix/secrets_internal" ∷ chars "tls" ∷ chars "ZBX_TLSKEYFILE" ∷ [])),
    )
    ∷ []

resolve_file_secret-hides_example : lookup "ZBX_TLSKEY" resolved_env ≡ none
unfolding resolve_file_secret lookup insert erase
resolve_file_secret-hides_example =
    resolve_file_secret-hides roots no_files tls_key (("ZBX_TLSKEY", "secret") ∷ []) resolved_env 0
      1 refl refl

abbrev psk : FileSecretSpec
psk = record {
  inline = "ZBX_TLSPSK";
  file = "ZBX_TLSPSKFILE";
  category = "tls";
  legacy_dir = "";
  standard = false;
  active = false;
}

resolve_file_secrets-hides_example :
    All (λ (spec : FileSecretSpec). lookup spec.inline resolved_env ≡ none) (tls_key ∷ psk ∷ [])
unfolding resolve_file_secrets resolve_file_secret insert erase lookup
resolve_file_secrets-hides_example =
    resolve_file_secrets-hides roots no_files (tls_key ∷ psk ∷ [])
      (("ZBX_TLSKEY", "secret") ∷ ("ZBX_TLSPSK", "old") ∷ []) resolved_env 0 1
      ((refl, (refl, tt)), ((refl, (refl, tt)), tt)) refl

abbrev port_env : Environment
port_env = ("DB_SERVER_PORT", "3307") ∷ []

resolve_db_port-published_example :
    ((n : ℕ) × (env' : Environment) × (parse_uint16 (chars "3307") ≡ some n)
      × (n < 65536)
      × (resolve_db_port port_env "3306" ≡ ok ("3307", env'))
      × (lookup "DB_SERVER_PORT" env' ≡ some "3307"))
    ⊎ ((parse_uint16 (chars "3307") ≡ none)
        × (resolve_db_port port_env "3306" ≡ err (invalid_db_server_port "3307")))
unfolding lookup
resolve_db_port-published_example =
    resolve_db_port-published port_env "3306" "3307" "DB_SERVER_PORT" (inl (refl, λ e. cc e))
