-- ===== src/Mysql/Database/Exported.antt =====
-- What the service finds in its environment.
use zabbix_docker.Base.{
  ◌≡◌, ◌∙◌, inl, inr, none, some, if◌then◌else◌, Bool-cases, nat_eq, char_eq, string_eq, list_eq,
}
use zabbix_docker.Base.Dict.{lookup, lookup-insert, lookup-erase}
use zabbix_docker.Mysql.Database.{Db, export_env}

-- The credentials of Vault are not exported: ExportEnv sets ZBX_DB_USER and ZBX_DB_PASSWORD to the user
-- and the password of the database when they are not from Vault, and removes both when they are.
pub lookup-export_env :
    (db : Db)
    → (lookup "ZBX_DB_USER" (export_env db).env ≡ (if db.from_vault then none else some db.user))
      × (lookup "ZBX_DB_PASSWORD" (export_env db).env
          ≡ (if db.from_vault then none else some db.password))
unfolding export_env
lookup-export_env db = elim (Bool-cases db.from_vault) [
  | inl h ↦ rw h (
    lookup-erase "ZBX_DB_USER" "ZBX_DB_PASSWORD" _ ∙ lookup-erase "ZBX_DB_USER" "ZBX_DB_USER" _,
    lookup-erase "ZBX_DB_PASSWORD" "ZBX_DB_PASSWORD" _,
  )
  | inr h ↦ rw h (
    lookup-insert "ZBX_DB_USER" "ZBX_DB_PASSWORD" _ _
        ∙ lookup-insert "ZBX_DB_USER" "ZBX_DB_USER" _ _,
    lookup-insert "ZBX_DB_PASSWORD" "ZBX_DB_PASSWORD" _ _,
  )
]
