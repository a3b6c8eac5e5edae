-- ===== src/Mysql/Database/Configured.antt =====
-- What `Configure` leaves in the database, with the credentials of Vault.
use zabbix_docker.Base.{
  String, ◌≡◌, refl, ap, ◌≢◌, ◌⊎◌, inl, inr, false, not, ◌&&◌, Option, arith, Bool-cases, ◌==◌,
  nat_eq, char_eq, string_eq, list_eq, Result, ok, err,
}
use zabbix_docker.Base.Partial.{OkAnd, Ends, Ends-bind, Ends-wrap_err}
use zabbix_docker.Bootstrap.Environment.{Environment, get}
use zabbix_docker.Vault.{Credentials, Json}
use zabbix_docker.Vault.Tls.{TlsOps}
use zabbix_docker.Vault.Request.{Http}
use zabbix_docker.Vault.Fetch.{resolve_db_credentials}
use zabbix_docker.Vault.Fetch.Results.{IsResolved, resolve_db_credentials-IsResolved}
use zabbix_docker.Mysql.Database.{
  Db, ConfigureError, or_else, user_of, password_of, use_root, admin_of, admin_or, with_target,
  with_credentials, returned, configure, vault,
}

-- The database has users to work with, and a password.
pub record IsConfigured (db : Db) : Type 0 where
  pub admin_user : db.admin_user ≢ ""
  pub user : db.user ≢ ""
  pub password : db.password ≢ ""

pub empty-≢ : (s : String) → (s == "") ≡ false → s ≢ ""
empty-≢ s h e = cc (h, ap (λ (u : String). u == "") e)

or_else-≢ : (a b : String) → b ≢ "" → or_else a b ≢ ""
or_else-≢ a b n = elim (Bool-cases (a == "")) [ inl h ↦ rw h n | inr h ↦ rw h (empty-≢ a h) ]

admin_or-≢ :
    (admin : String × String) (user password : String)
    → (admin.0 ≢ "") ⊎ (user ≢ "")
    → (admin_or admin user password).0 ≢ ""
admin_or-≢ (a, p) user password h = elim (Bool-cases (a == "")) [
  | inl e ↦ rw e (elim h [ inl n ↦ absurd (n ((string_eq.beq_iff a "").0 e)) | inr n ↦ n ])
  | inr e ↦ rw e (empty-≢ a e)
]

-- Who administers the database, where the settings are accepted.
admin_user-≢ :
    (env : Environment) (user : String)
    → (user == ""
        && get env "MYSQL_ROOT_PASSWORD" == ""
        && not (get env "MYSQL_ALLOW_EMPTY_PASSWORD" == "true"))
      ≡ false
    → ((admin_of env).0 ≢ "") ⊎ (user ≢ "")
admin_user-≢ env user h = elim (Bool-cases (use_root env)) [
  | inl root ↦ inl (rw root (or_else-≢ (get env "MYSQL_ROOT_USER") "root" (empty-≢ "root" refl)))
  | inr other ↦ inr (empty-≢ user (ground arith))
]

with_credentials-IsConfigured :
    (db : Db) (name : String) (creds : Option Credentials)
    → OkAnd IsConfigured (with_credentials db name creds)
unfolding with_credentials
with_credentials-IsConfigured db name creds =
    let user = user_of db.env creds in
    elim (Bool-cases (
      user == ""
      && get db.env "MYSQL_ROOT_PASSWORD" == ""
      && not (get db.env "MYSQL_ALLOW_EMPTY_PASSWORD" == "true"))) [
        | inl h ↦ rw (h, with_credentials) tt
        | inr h ↦
            rw (h, with_credentials)
              (record {
                admin_user =
                    admin_or-≢ (admin_of db.env) user (password_of db.env creds)
                      (admin_user-≢ db.env user h);
                user = or_else-≢ user "zabbix" (empty-≢ "zabbix" refl);
                password = or_else-≢ (password_of db.env creds) "zabbix" (empty-≢ "zabbix" refl);
              })
      ]

abbrev Anything : {A : Type 0} → A → Type 0
Anything a = Unit

OkAnd-Anything : {E A : Type 0} (r : Result E A) → OkAnd Anything r
OkAnd-Anything (ok a) = tt
OkAnd-Anything (err e) = tt

returned-Ends :
    {W A : Type 0} (P : A → Type 0) (r : Result ConfigureError A)
    → OkAnd P r
    → Ends P (returned {W = W} r)
returned-Ends P r p = record { at_state = λ w. (r, w, refl, p) }

module _ {W Pool Cert Reader : Type 0} (json : Json) (tls : TlsOps W Pool Cert)
    (http : Http W Pool Cert Reader) where
  -- Configure ends, with Vault or without. Without an error the database has an administrative user, a
  -- user and a password, none of which is empty.
  pub configure-IsConfigured :
      (db : Db) (default_db_name : String)
      → Ends IsConfigured (configure (resolve_db_credentials json tls http) db default_db_name)
  unfolding configure
  configure-IsConfigured db default_db_name =
      Ends-bind Anything IsConfigured
        (returned-Ends Anything (with_target (record db { tls = db.resolve_tls db.env }))
          (OkAnd-Anything _))
        (λ (db' : Db) _.
          Ends-bind (IsResolved db'.env) IsConfigured
            (Ends-wrap_err (IsResolved db'.env) vault
              (resolve_db_credentials-IsResolved json tls http db'.env))
            (λ creds _.
              returned-Ends IsConfigured _
                (with_credentials-IsConfigured db' default_db_name creds)))
