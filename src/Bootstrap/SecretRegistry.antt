-- ===== src/Bootstrap/SecretRegistry.antt =====
-- templates/entrypoints/internal/bootstrap/secret_registry.go, and the names of secrets.go: which secrets a
-- component needs for a command.
pub mod ComponentPlan
pub mod ProviderPlan
use zabbix_docker.Base.{
  String, refl, Bool, true, false, ◌&&◌, ◌||◌, List, [], ◌∷◌, starts_with, if◌then◌else◌, nat_eq,
  char_eq, string_eq, list_eq, Text, chars, trim_space, has_suffix, split_on, lower_is, equal_fold,
}
use zabbix_docker.Base.Dict.{erase_where}
use zabbix_docker.Base.Paths.{join_paths}
use zabbix_docker.Bootstrap.Environment.{Environment, get}

pub data SecretComponent : Type 0 where
  agent : SecretComponent
  agent2 : SecretComponent
  server_mysql : SecretComponent
  server_pgsql : SecretComponent
  proxy_mysql : SecretComponent
  proxy_sqlite : SecretComponent
  web_mysql : SecretComponent
  web_pgsql : SecretComponent
  web_service : SecretComponent
  mcp_server : SecretComponent
  bridge : SecretComponent

pub data SecretCommand : Type 0 where
  service : SecretCommand
  init_db : SecretCommand
  init_history : SecretCommand
  init_telemetry : SecretCommand

pub record FileSecretSpec : Type 0 where
  pub inline : String
  pub file : String
  pub category : String
  pub legacy_dir : String
  pub standard : Bool
  pub active : Bool

pub record ValueSecretSpec : Type 0 where
  pub name : String
  pub category : String
  pub active : Bool

pub record SecretAlias : Type 0 where
  pub legacy : String
  pub canonical : String

pub record SecretPlan : Type 0 where
  pub files : List FileSecretSpec
  pub values : List ValueSecretSpec
  pub aliases : List SecretAlias

unfoldable pub is_server : SecretComponent → Bool
is_server server_mysql = true
is_server server_pgsql = true
is_server _ = false

unfoldable pub is_proxy : SecretComponent → Bool
is_proxy proxy_mysql = true
is_proxy proxy_sqlite = true
is_proxy _ = false

unfoldable pub is_web : SecretComponent → Bool
is_web web_mysql = true
is_web web_pgsql = true
is_web _ = false

unfoldable pub is_server_or_proxy : SecretComponent → Bool
unfolding is_server is_proxy
is_server_or_proxy component = is_server component || is_proxy component

unfoldable pub has_provider_secret_suffix : String → List String → Bool
has_provider_secret_suffix name [] = false
has_provider_secret_suffix name (suffix ∷ suffixes) =
    if has_suffix (chars name) (chars suffix)
    then true
    else has_provider_secret_suffix name suffixes

unfoldable pub drop_provider_secret_sources : String → List String → Environment → Environment
drop_provider_secret_sources prefix suffixes env =
    erase_where (λ name. starts_with name prefix && has_provider_secret_suffix name suffixes) env

abbrev any_is_mode : Text → List Text → Bool
any_is_mode mode [] = false
any_is_mode mode (value ∷ values) =
    if equal_fold (trim_space value) mode then true else any_is_mode mode values

unfoldable pub secret_mode_enabled : Environment → String → List String → Bool
secret_mode_enabled env mode [] = false
secret_mode_enabled env mode (name ∷ names) =
    if any_is_mode (chars mode) (split_on b',' (chars (get env name)))
    then true
    else secret_mode_enabled env mode names

unfoldable pub env_enabled : String → Bool
env_enabled value =
    let word = trim_space (chars value) in
    lower_is word (chars "1")
    || lower_is word (chars "true")
    || lower_is word (chars "yes")
    || lower_is word (chars "on")
