-- ===== src/Mysql/Tls.antt =====
-- templates/entrypoints/internal/mysql/tls.go: the TLS settings of a connection.
pub mod Verified
use zabbix_docker.Base.{
  Char, String, refl, Bool, true, false, not, ◌&&◌, ◌||◌, Option, none, some, List, [], ◌∷◌,
  if◌then◌else◌, ◌==◌, nat_eq, char_eq, string_eq, list_eq, is_empty, Text, chars, is_code, trim,
  lower_is,
}
use zabbix_docker.Base.Exec.{Exec, pure, raise, ◌>>=◌, wrap_err}
use zabbix_docker.Bootstrap.Os.{OsError}
use zabbix_docker.Bootstrap.Environment.{Environment, get}
use zabbix_docker.Bootstrap.Database.{DbTlsConfig}
use zabbix_docker.Vault.{Bytes}

pub data TlsError : Type 0 where
  unsupported_mode : String → TlsError
  system_pool_failed : OsError → TlsError
  read_ca_failed : String → OsError → TlsError
  no_certificate_in : String → TlsError
  incomplete_pair : TlsError
  load_certificate_failed : OsError → TlsError

-- `crypto/tls`, `crypto/x509` and `os.ReadFile`. `append_certs_from_pem` gives the pool and whether a
-- certificate was found.
pub record CertOps (W Pool Cert : Type 0) : Type 0 where
  pub system_cert_pool : Exec W OsError Pool
  pub new_cert_pool : Pool
  pub append_certs_from_pem : Pool → Bytes → Pool × Bool
  pub load_key_pair : String → String → Exec W OsError Cert
  pub read_file : String → Exec W OsError Bytes

-- `verify_connection` says that the chain of the peer is verified by `VerifyCertificateChain`.
pub record MysqlTls (Pool Cert : Type 0) : Type 0 where
  pub insecure_skip_verify : Bool
  pub verify_connection : Bool
  pub root_cas : Option Pool
  pub certificates : List Cert
  pub server_name : Text

abbrev pub is_bracket : Char → Bool
is_bracket c = is_code b'[' c || is_code b']' c

abbrev differ : Bool → Bool → Bool
differ a b = if a then not b else b

module _ {W Pool Cert : Type 0} (ops : CertOps W Pool Cert) where
  abbrev found_in : String → Pool × Bool → Exec W TlsError Pool
  found_in path (pool, found) = if not found then raise (no_certificate_in path) else pure pool

  unfoldable pub load_certificate_pool : String → Exec W TlsError Pool
  load_certificate_pool path =
      if path == ""
      then wrap_err system_pool_failed ops.system_cert_pool
      else (wrap_err (read_ca_failed path) (ops.read_file path) >>= λ data_.
          found_in path (ops.append_certs_from_pem ops.new_cert_pool data_))

  abbrev roots_for : Text → String → Exec W TlsError (Option Pool)
  roots_for mode ca_file =
      if not (ca_file == "") || not (lower_is mode (chars "required"))
      then (load_certificate_pool ca_file >>= λ roots. pure (some roots))
      else pure none

  abbrev client_certificates : String → String → Exec W TlsError (List Cert)
  client_certificates cert_file key_file =
      if not (cert_file == "")
      then (wrap_err load_certificate_failed (ops.load_key_pair cert_file key_file) >>= λ cert.
          pure (cert ∷ []))
      else pure []

  -- The last `switch`.
  abbrev with_mode : Text → Text → Option Pool → List Cert → MysqlTls Pool Cert
  with_mode mode host roots certificates =
      if lower_is mode (chars "required")
      then record {
        insecure_skip_verify = true;
        verify_connection = false;
        root_cas = roots;
        certificates = certificates;
        server_name = [];
      }
      else if lower_is mode (chars "verify_ca")
      then record {
        insecure_skip_verify = true;
        verify_connection = true;
        root_cas = roots;
        certificates = certificates;
        server_name = [];
      }
      else record {
        insecure_skip_verify = false;
        verify_connection = false;
        root_cas = roots;
        certificates = certificates;
        server_name =
            if is_empty (trim is_bracket host) then chars "localhost" else trim is_bracket host;
      }

  unfoldable pub tls_config :
      Environment → DbTlsConfig → Exec W TlsError (Option (MysqlTls Pool Cert))
  tls_config env tls =
      let mode = chars tls.connect_mode in
      if lower_is mode []
      then pure none
      else if not (lower_is mode (chars "required"))
          && not (lower_is mode (chars "verify_ca"))
          && not (lower_is mode (chars "verify_full"))
      then raise (unsupported_mode tls.connect_mode)
      else (roots_for mode tls.ca_file >>= λ roots.
          (if differ (tls.cert_file == "") (tls.key_file == "")
            then raise incomplete_pair
            else (client_certificates tls.cert_file tls.key_file >>= λ certificates.
                pure
                  (some (with_mode mode (chars (get env "DB_SERVER_HOST")) roots certificates)))))
