-- ===== src/Vault/Tls.antt =====
-- `vaultTLSConfig` and `hashicorpTLSConfig`, and LoadCAPool of
-- templates/entrypoints/internal/bootstrap/tls.go.
use zabbix_docker.Base.{
  String, Bool, not, ◌||◌, Option, none, some, List, [], ◌∷◌, if◌then◌else◌, ◌==◌, nat_eq, char_eq,
  string_eq, list_eq, Result, chars, of_text,
}
use zabbix_docker.Base.Exec.{Exec, pure, lift, ◌>>=◌, wrap_err}
use zabbix_docker.Base.Paths.{join_paths}
use zabbix_docker.Bootstrap.Environment.{Environment, get}
use zabbix_docker.Bootstrap.Os.{OsError, FileInfo}
use zabbix_docker.Vault.{VaultError, ca_pool_failed, Bytes, vault_tls_verification}

-- `crypto/tls`, `crypto/x509` and the files that they are fed from. `Pool` is a set of root certificates,
-- `Cert` a client certificate with its key.
pub record TlsOps (W Pool Cert : Type 0) : Type 0 where
  pub system_cert_pool : Exec W OsError Pool
  pub append_certs_from_pem : Pool → Bytes → Pool
  pub key_pair : Bytes → Bytes → Result OsError Cert
  pub read_dir : String → Exec W OsError (List String)
  pub stat : String → Exec W OsError FileInfo
  pub read_file : String → Exec W OsError Bytes

pub record TlsConfig (Pool Cert : Type 0) : Type 0 where
  pub insecure_skip_verify : Bool
  pub certificates : List Cert
  pub root_cas : Option Pool

module _ {W Pool Cert : Type 0} (ops : TlsOps W Pool Cert) where
  -- One entry of the directory.
  unfoldable pub add_entry : String → Pool → String → Exec W OsError Pool
  add_entry directory pool name =
      let path = of_text (join_paths (chars directory ∷ chars name ∷ [])) in
      ops.stat path >>= λ info.
      (if not info.is_regular
        then pure pool
        else (ops.read_file path >>= λ data_. pure (ops.append_certs_from_pem pool data_)))

  unfoldable pub add_entries : String → Pool → List String → Exec W OsError Pool
  add_entries directory pool [] = pure pool
  add_entries directory pool (name ∷ names) =
      add_entry directory pool name >>= λ pool'. add_entries directory pool' names

  unfoldable pub load_ca_pool : String → Exec W OsError Pool
  load_ca_pool directory = ops.system_cert_pool >>= λ pool.
      (if directory == ""
        then pure pool
        else (ops.read_dir directory >>= λ entries. add_entries directory pool entries))

  unfoldable pub vault_tls_config :
      Environment → Bool → List Cert → Exec W VaultError (TlsConfig Pool Cert)
  vault_tls_config env insecure certificates =
      if insecure || get env "ZBX_SSLCALOCATION" == ""
      then pure
          (record { insecure_skip_verify = insecure; certificates = certificates; root_cas = none })
      else (wrap_err ca_pool_failed (load_ca_pool (get env "ZBX_SSLCALOCATION")) >>= λ roots.
          pure (record {
            insecure_skip_verify = insecure;
            certificates = certificates;
            root_cas = some roots;
          }))

  unfoldable pub hashicorp_tls_config : Environment → Exec W VaultError (TlsConfig Pool Cert)
  hashicorp_tls_config env =
      lift (vault_tls_verification (get env "ZBX_VAULT_SSL_VERIFY")) >>= λ verify.
      vault_tls_config env (not verify) []
