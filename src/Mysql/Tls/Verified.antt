-- ===== src/Mysql/Tls/Verified.antt =====
-- Which peers a connection to MySQL accepts.
use zabbix_docker.Base.{
  String, ◌≡◌, refl, inl, inr, Bool, true, not, ◌&&◌, ◌||◌, Option, none, some, List, [], arith,
  if◌then◌else◌, Bool-cases, ◌==◌, nat_eq, char_eq, string_eq, list_eq, Result, ok, err, Text,
  chars, is_some, lower_is,
}
use zabbix_docker.Base.Exec
use zabbix_docker.Base.Exec.{Exec}
use zabbix_docker.Base.Partial.{OkAnd, OkAnd-bind}
use zabbix_docker.Bootstrap.Environment.{Environment, get}
use zabbix_docker.Bootstrap.Database.{DbTlsConfig}
use zabbix_docker.Mysql.Tls.{
  TlsError, CertOps, MysqlTls, roots_for, client_certificates, with_mode, differ,
  load_certificate_pool, incomplete_pair, tls_config,
}

abbrev is_required : Text → Bool
is_required mode = lower_is mode (chars "required")

-- A connection without TLS, only where no mode is set. Else, but for the mode `required`, the peer is
-- verified by its chain or by the standard verification, against a pool of roots that was loaded.
abbrev pub IsVerified : {Pool Cert : Type 0} → Text → Option (MysqlTls Pool Cert) → Type 0
IsVerified mode none = lower_is mode [] ≡ true
IsVerified mode (some config) =
    ((is_required mode || config.verify_connection || not config.insecure_skip_verify) ≡ true)
    × ((is_required mode || is_some config.root_cas) ≡ true)

abbrev HasRoots : {Pool : Type 0} → Text → Option Pool → Type 0
HasRoots mode roots = (is_required mode || is_some roots) ≡ true

abbrev Anything : {A : Type 0} → A → Type 0
Anything a = Unit

OkAnd-Anything : {E A : Type 0} (r : Result E A) → OkAnd Anything r
OkAnd-Anything (ok a) = tt
OkAnd-Anything (err e) = tt

module _ {W Pool Cert : Type 0} (ops : CertOps W Pool Cert) where
  roots_for-HasRoots :
      (mode : Text) (ca_file : String) (w : W)
      → OkAnd (HasRoots mode) (roots_for ops mode ca_file w).0
  roots_for-HasRoots mode ca_file w =
      elim (Bool-cases (not (ca_file == "") || not (is_required mode))) [
        | inl h ↦ rw h (
            OkAnd-bind Anything (HasRoots mode) (load_certificate_pool ops ca_file) _ w
              (OkAnd-Anything _) (λ roots _ w. ground arith))
        | inr h ↦ rw h (ground arith)
      ]

  with_mode-IsVerified :
      (mode host : Text) (roots : Option Pool) (certificates : List Cert)
      → HasRoots mode roots
      → IsVerified mode (some (with_mode ops mode host roots certificates))
  with_mode-IsVerified mode host roots certificates h = elim (Bool-cases (is_required mode)) [
    | inl e ↦ rw e (refl, refl)
    | inr e ↦ elim (Bool-cases (lower_is mode (chars "verify_ca"))) [
      | inl f ↦ rw e (rw f (refl, rw e at h))
      | inr f ↦ rw e (rw f (refl, rw e at h))
    ]
  ]

  abbrev with_certificates :
      Environment → DbTlsConfig → Option Pool → Exec W TlsError (Option (MysqlTls Pool Cert))
  with_certificates env tls roots =
      if differ (tls.cert_file == "") (tls.key_file == "")
      then Exec.raise incomplete_pair
      else (Exec.◌>>=◌ (client_certificates ops tls.cert_file tls.key_file) (λ certificates.
          Exec.pure (
            some (
              with_mode ops (chars tls.connect_mode) (chars (get env "DB_SERVER_HOST")) roots
                certificates))))

  with_certificates-IsVerified :
      (env : Environment) (tls : DbTlsConfig) (roots : Option Pool) (w : W)
      → HasRoots (chars tls.connect_mode) roots
      → OkAnd (IsVerified (chars tls.connect_mode)) (with_certificates env tls roots w).0
  with_certificates-IsVerified env tls roots w h =
      elim (Bool-cases (differ (tls.cert_file == "") (tls.key_file == ""))) [
        | inl d ↦ rw d tt
        | inr d ↦ rw d (
            OkAnd-bind Anything (IsVerified (chars tls.connect_mode))
              (client_certificates ops tls.cert_file tls.key_file) _ w (OkAnd-Anything _)
              (λ certificates _ w.
                with_mode-IsVerified (chars tls.connect_mode) (chars (get env "DB_SERVER_HOST"))
                  roots certificates h))
      ]

  -- Without an error tlsConfig gives no TLS only when the mode is empty, and a configuration that does not
  -- verify the peer only when the mode is `required`.
  pub tls_config-IsVerified :
      (env : Environment) (tls : DbTlsConfig) (w : W)
      → OkAnd (IsVerified (chars tls.connect_mode)) (tls_config ops env tls w).0
  unfolding tls_config
  tls_config-IsVerified env tls w =
      let mode = chars tls.connect_mode in
      elim (Bool-cases (lower_is mode [])) [
        | inl h ↦ rw (h, tls_config) h
        | inr h ↦
            elim (Bool-cases (
              not (is_required mode)
              && not (lower_is mode (chars "verify_ca"))
              && not (lower_is mode (chars "verify_full")))) [
                | inl g ↦ rw (h, tls_config) (rw g tt)
                | inr g ↦
                    rw (h, tls_config)
                      (rw g (
                        OkAnd-bind (HasRoots mode) (IsVerified mode)
                          (roots_for ops mode tls.ca_file) _ w
                          (roots_for-HasRoots mode tls.ca_file w)
                          (λ roots some_roots w.
                            with_certificates-IsVerified env tls roots w some_roots)))
              ]
      ]
