-- ===== src/Bootstrap/Database/Settings.antt =====
-- The port of the database: which value it is, and where it is published.
use zabbix_docker.Base.{
  ℕ, ◌<◌, String, ◌≡◌, refl, ◌≢◌, ◌⊎◌, inl, inr, none, some, arith, if◌then◌else◌, Bool-cases,
  Option-cases, ◌==◌, nat_eq, char_eq, string_eq, list_eq, ok, err, Text, chars,
}
use zabbix_docker.Base.Decimal.{parse_uint16}
use zabbix_docker.Base.Dict.{lookup, insert, lookup-insert}
use zabbix_docker.Bootstrap.Environment.{Environment, value_or_default_non_empty}
use zabbix_docker.Bootstrap.Database.{resolve_db_port, invalid_db_server_port}

-- The value is that of DB_SERVER_PORT, or the default one where the variable is missing or empty.
abbrev pub IsPortValue : Environment → String → String → Type 0
IsPortValue env default_port value =
    ((lookup "DB_SERVER_PORT" env ≡ some value) × (value ≢ ""))
    ⊎ (((lookup "DB_SERVER_PORT" env ≡ none) ⊎ (lookup "DB_SERVER_PORT" env ≡ some ""))
        × (value ≡ default_port))

port_value :
    (env : Environment) (default_port value : String)
    → IsPortValue env default_port value
    → value_or_default_non_empty env "DB_SERVER_PORT" default_port ≡ value
unfolding value_or_default_non_empty
port_value env default_port value (inl (e, n)) = elim (Bool-cases (value == "")) [
  | inl empty ↦ absurd (n ((string_eq.beq_iff value "").0 empty))
  | inr filled ↦ rw (e, value_or_default_non_empty, filled) refl
]
port_value env default_port value (inr (inl e, same)) =
    rw (e, value_or_default_non_empty, same) refl
port_value env default_port value (inr (inr e, same)) =
    rw (e, value_or_default_non_empty, same) refl

parse_uint16-lt : (s : Text) (n : ℕ) → parse_uint16 s ≡ some n → n < 65536
unfolding parse_uint16
parse_uint16-lt s n h = ground arith

-- The port is the value of DB_SERVER_PORT, or the default one where the variable is missing or empty. If it is
-- a number, which is below 65536 then, it is returned and the environment holds it in DB_SERVER_PORT, and no
-- other variable changes; otherwise the error names the value.
pub resolve_db_port-published :
    (env : Environment) (default_port value name : String)
    → IsPortValue env default_port value
    → ((n : ℕ) × (env' : Environment) × (parse_uint16 (chars value) ≡ some n)
        × (n < 65536)
        × (resolve_db_port env default_port ≡ ok (value, env'))
        × (lookup name env' ≡ (if "DB_SERVER_PORT" == name then some value else lookup name env)))
      ⊎ ((parse_uint16 (chars value) ≡ none)
          × (resolve_db_port env default_port ≡ err (invalid_db_server_port value)))
unfolding resolve_db_port
resolve_db_port-published env default_port value name h =
    let chosen = port_value env default_port value h in
    elim (Option-cases (parse_uint16 (chars value))) [
      | inl bad ↦ inr (bad, rw (chosen, resolve_db_port, bad) refl)
      | inr (n, good) ↦ inl (
        n,
        insert "DB_SERVER_PORT" value env,
        good,
        parse_uint16-lt (chars value) n good,
        rw (chosen, resolve_db_port, good) refl,
        lookup-insert name "DB_SERVER_PORT" value env,
      )
    ]
