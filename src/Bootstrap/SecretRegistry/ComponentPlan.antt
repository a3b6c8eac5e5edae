-- ===== src/Bootstrap/SecretRegistry/ComponentPlan.antt =====
-- `secretPlan`, but for the secrets of the storage providers.
use zabbix_docker.Base.{
  String, ◌<>◌, Bool, true, false, not, ◌&&◌, ◌||◌, List, [], ◌∷◌, ◌++◌, map, if◌then◌else◌, ◌==◌,
  nat_eq, char_eq, string_eq, list_eq, chars, of_text, equal_fold,
}
use zabbix_docker.Base.Paths.{join_paths}
use zabbix_docker.Bootstrap.Environment.{Environment, get}
use zabbix_docker.Bootstrap.SecretRegistry.{
  SecretComponent, agent, agent2, server_mysql, server_pgsql, proxy_mysql, web_mysql, web_pgsql,
  web_service, mcp_server, bridge, SecretCommand, service, init_db, init_history, init_telemetry,
  FileSecretSpec, ValueSecretSpec, SecretAlias, SecretPlan, is_server, is_proxy, is_web,
  is_server_or_proxy, secret_mode_enabled, env_enabled,
}

abbrev file_spec : String → String → Bool → Bool → String → FileSecretSpec
file_spec category legacy standard active name = record {
  inline = name;
  file = name <> "FILE";
  category = category;
  legacy_dir = legacy;
  standard = standard;
  active = active;
}

abbrev pub add_files : String → String → Bool → Bool → List String → List FileSecretSpec
add_files category legacy standard active names =
    map (file_spec category legacy standard active) names

abbrev value_spec : String → Bool → String → ValueSecretSpec
value_spec category active name = record { name = name; category = category; active = active }

abbrev pub add_values : String → Bool → List String → List ValueSecretSpec
add_values category active names = map (value_spec category active) names

abbrev pub is_service : SecretCommand → Bool
is_service service = true
is_service _ = false

abbrev is_set : Environment → String → Bool
is_set env name = not (get env name == "")

abbrev folds_to : Environment → String → String → Bool
folds_to env name word = equal_fold (chars (get env name)) (chars word)

abbrev pub enc_dir : Environment → String
enc_dir env = of_text (join_paths (chars (get env "ZABBIX_USER_HOME_DIR") ∷ chars "enc" ∷ []))

abbrev pub web_certs_dir : String
web_certs_dir = "/etc/zabbix/web/certs"

-- The `switch component` for the service.
unfoldable pub component_files : Environment → SecretComponent → List FileSecretSpec
component_files env component =
    let certs : List String = "ZBX_TLSCERT" ∷ "ZBX_TLSKEY" ∷ [] in
    let agent_files =
      add_files "tls" (enc_dir env) false true
        ("ZBX_TLSCA" ∷ "ZBX_TLSCRL" ∷ "ZBX_TLSCERT" ∷ "ZBX_TLSKEY" ∷ "ZBX_TLSPSK" ∷ []) in
    let accepts_cert = secret_mode_enabled env "cert" ("ZBX_TLSACCEPT" ∷ []) in
    let listener_mtls = folds_to env "ZBX_TLSMODE" "mtls" in
    let listener_tls = folds_to env "ZBX_TLSMODE" "tls" || listener_mtls in
    let api_tls =
      folds_to env "ZBX_ZABBIXAPITLSCONNECT" "verify_ca"
      || folds_to env "ZBX_ZABBIXAPITLSCONNECT" "verify_full" in
    elim component [
      | agent ↦ agent_files
      | agent2 ↦ agent_files
      | web_service ↦ add_files "tls" (enc_dir env) false accepts_cert ("ZBX_TLSCA" ∷ certs)
      | mcp_server ↦ add_files "tls" (enc_dir env) false accepts_cert certs
      | bridge ↦
          add_files "tls" (enc_dir env) false listener_mtls ("ZBX_TLSCA" ∷ [])
          ++ (add_files "tls" (enc_dir env) false listener_tls certs
              ++ add_files "tls" (enc_dir env) false api_tls ("ZBX_ZABBIXAPITLSCA" ∷ []))
      | _ ↦ []
    ]

unfoldable pub service_files : Environment → SecretComponent → List FileSecretSpec
service_files env component =
    let peer : List String = "ZBX_TLSCA" ∷ "ZBX_TLSCRL" ∷ "ZBX_TLSCERT" ∷ "ZBX_TLSKEY" ∷ [] in
    let apm_active =
      is_set env "ZBX_APM_CA" || is_set env "ZBX_APM_CAFILE" || is_set env "ZBX_APM_CA_LOCATION" in
    component_files env component
    ++ ((if is_server component then add_files "tls" (enc_dir env) false true peer else [])
        ++ ((if is_proxy component
              then add_files "tls" (enc_dir env) false true (peer ++ ("ZBX_TLSPSK" ∷ []))
                ++ add_files "apm" "" false (env_enabled (get env "ZBX_STARTAPMCOLLECTOR"))
                    ("ZBX_APMTLSCA" ∷ "ZBX_APMTLSCERT" ∷ "ZBX_APMTLSKEY" ∷ [])
              else [])
            ++ (if is_web component
                then add_files "tls" (enc_dir env) false
                    (env_enabled (get env "ZBX_SERVER_TLS_ACTIVE"))
                    ("ZBX_SERVER_TLS_CA" ∷ "ZBX_SERVER_TLS_CERT" ∷ "ZBX_SERVER_TLS_KEY" ∷ [])
                  ++ (add_files "sso" web_certs_dir false true
                        ("ZBX_SSO_SP_KEY" ∷ "ZBX_SSO_SP_CERT" ∷ "ZBX_SSO_IDP_CERT" ∷ [])
                      ++ add_files "apm" "" false apm_active ("ZBX_APM_CA" ∷ []))
                else [])))

abbrev has_mysql_secrets : SecretComponent → Bool
has_mysql_secrets server_mysql = true
has_mysql_secrets proxy_mysql = true
has_mysql_secrets web_mysql = true
has_mysql_secrets _ = false

abbrev has_pgsql_secrets : SecretComponent → Bool
has_pgsql_secrets server_pgsql = true
has_pgsql_secrets web_pgsql = true
has_pgsql_secrets _ = false

abbrev is_proxy_mysql : SecretComponent → Bool
is_proxy_mysql proxy_mysql = true
is_proxy_mysql _ = false

unfoldable pub database_files : Environment → SecretComponent → List FileSecretSpec
database_files env component =
    let db_tls_active =
      if is_web component
      then env_enabled (get env "ZBX_DB_ENCRYPTION")
      else is_set env "ZBX_DBTLSCONNECT" in
    if is_server component || is_proxy_mysql component || is_web component
    then add_files "database" "" true db_tls_active
        ("ZBX_DBTLSCA" ∷ "ZBX_DBTLSCERT" ∷ "ZBX_DBTLSKEY" ∷ [])
    else []

unfoldable pub database_values : Environment → SecretComponent → List ValueSecretSpec
database_values env component =
    let local_db_credentials = get env "ZBX_VAULTDBPATH" == "" in
    (if has_mysql_secrets component
      then add_values "database" local_db_credentials ("MYSQL_USER" ∷ "MYSQL_PASSWORD" ∷ [])
        ++ add_values "database" true ("MYSQL_ROOT_USER" ∷ "MYSQL_ROOT_PASSWORD" ∷ [])
      else [])
    ++ (if has_pgsql_secrets component
        then add_values "database" local_db_credentials ("POSTGRES_USER" ∷ "POSTGRES_PASSWORD" ∷ [])
        else [])

abbrev pub alias : String → String → SecretAlias
alias legacy canonical = record { legacy = legacy; canonical = canonical }

abbrev vault_file : Environment → SecretComponent → Bool → String → String → FileSecretSpec
vault_file env component active inline category = record {
  inline = inline;
  file = inline <> "FILE";
  category = if is_server_or_proxy component then category else "vault";
  legacy_dir = if is_web component then web_certs_dir else enc_dir env;
  standard = false;
  active = active;
}

unfoldable pub vault_plan : Environment → SecretComponent → Bool → SecretPlan
vault_plan env component active = record {
  files =
      vault_file env component active "ZBX_VAULTTLSCERT" "ssl/certs"
      ∷ vault_file env component active "ZBX_VAULTTLSKEY" "ssl/keys"
      ∷ [];
  values =
      add_values "vault" active
        ("VAULT_TOKEN" ∷ "ZBX_VAULTAPPROLEID" ∷ "ZBX_VAULTAPPSECRETID" ∷ []);
  aliases =
      alias "ZBX_VAULTCERTFILE" "ZBX_VAULTTLSCERTFILE"
      ∷ alias "ZBX_VAULTKEYFILE" "ZBX_VAULTTLSKEYFILE"
      ∷ [];
}

abbrev pub no_secrets : SecretPlan
no_secrets = record { files = []; values = []; aliases = [] }

abbrev pub needs_database : SecretCommand → Bool
needs_database service = true
needs_database init_db = true
needs_database _ = false

abbrev pub needs_vault : SecretCommand → Bool
needs_vault init_history = false
needs_vault _ = true

abbrev pub is_init_telemetry : SecretCommand → Bool
is_init_telemetry init_telemetry = true
is_init_telemetry _ = false

unfoldable pub web_aliases : List SecretAlias
web_aliases =
    alias "ZBX_DB_CA_FILE" "ZBX_DBTLSCAFILE"
    ∷ alias "ZBX_DB_CERT_FILE" "ZBX_DBTLSCERTFILE"
    ∷ alias "ZBX_DB_KEY_FILE" "ZBX_DBTLSKEYFILE"
    ∷ []

unfoldable pub needs_providers : SecretComponent → SecretCommand → Bool
needs_providers component service = is_server component || is_proxy component || is_web component
needs_providers component init_db = false
needs_providers component init_history = is_server component
needs_providers component init_telemetry = is_server component || is_proxy component

-- What `secretPlan` collects before the secrets of the providers. `uses_vault` is what
-- `telemetryProviderUsesVault` says of the environment.
unfoldable pub component_plan :
    (Environment → Bool) → Environment → SecretComponent → SecretCommand → SecretPlan
component_plan uses_vault env component command =
    let vault_active = is_set env "ZBX_VAULT" || (is_init_telemetry command && uses_vault env) in
    let vault =
      if (is_server_or_proxy component || is_web component) && needs_vault command
      then vault_plan env component vault_active
      else no_secrets in
    record {
      files =
          (if is_service command then service_files env component else [])
          ++ ((if needs_database command then database_files env component else []) ++ vault.files);
      values =
          (if needs_database command then database_values env component else []) ++ vault.values;
      aliases =
          vault.aliases ++ (if is_web component && is_service command then web_aliases else []);
    }
