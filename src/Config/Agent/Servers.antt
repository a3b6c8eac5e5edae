-- ===== src/Config/Agent/Servers.antt =====
-- The server lists that the agent gets.
use zabbix_docker.Base.{
  String, ◌<>◌, ◌≡◌, refl, sym, ◌∙◌, ◌≢◌, ◌⊎◌, inl, inr, true, false, not, ◌&&◌, Option, none, some,
  if◌then◌else◌, Bool-cases, Option-cases, chars, equal_fold, ◌==◌, nat_eq, char_eq, string_eq,
  list_eq,
}
use zabbix_docker.Base.Dict.{lookup, lookup-insert, lookup-erase}
use zabbix_docker.Bootstrap.Environment.{Environment, get, value_or_default}
use zabbix_docker.Config.Agent.{
  prepend_server, active_server, with_server, is_allowed, set_servers, configure_servers,
}

-- What an allowing switch publishes: the servers, unless there is none.
abbrev pub published : String → String → Option String
published allow servers = if is_allowed allow && not (servers == "") then some servers else none

lookup-set_servers :
    (allow name servers key : String) (env : Environment)
    → lookup key (set_servers allow name servers env)
      ≡ (if name == key then published (get env allow) servers else lookup key env)
unfolding set_servers
lookup-set_servers allow name servers key env =
    elim (Bool-cases (is_allowed (get env allow) && not (servers == ""))) [
      | inl h ↦ rw (h, set_servers) (lookup-insert key name servers env)
      | inr h ↦ rw (h, set_servers) (lookup-erase key name env)
    ]

get-set_servers :
    (allow name servers key : String) (env : Environment)
    → (name == key) ≡ false
    → get (set_servers allow name servers env) key ≡ get env key
get-set_servers allow name servers key env h =
    rw (lookup-set_servers allow name servers key env) (rw h refl)

configure_servers-eq :
    (env : Environment) (key : String)
    → lookup key (configure_servers env) ≡ (
        if "ZBX_SERVER_PORT" == key
        then none
        else if "ZBX_SERVER_HOST" == key
        then none
        else if "ZBX_ACTIVESERVERS" == key
        then published (get env "ZBX_ACTIVE_ALLOW") (
            with_server
              (value_or_default env "ZBX_SERVER_HOST" "zabbix-server")
              (active_server env (value_or_default env "ZBX_SERVER_HOST" "zabbix-server"))
              (get env "ZBX_ACTIVESERVERS"))
        else if "ZBX_PASSIVESERVERS" == key
        then published (get env "ZBX_PASSIVE_ALLOW") (
            with_server
              (value_or_default env "ZBX_SERVER_HOST" "zabbix-server")
              (value_or_default env "ZBX_SERVER_HOST" "zabbix-server")
              (get env "ZBX_PASSIVESERVERS"))
        else lookup key env)
unfolding configure_servers
configure_servers-eq env key =
    rw (lookup-erase key "ZBX_SERVER_PORT", configure_servers)
      (rw (lookup-erase key "ZBX_SERVER_HOST") (
        rw (lookup-set_servers "ZBX_ACTIVE_ALLOW" "ZBX_ACTIVESERVERS") (
          rw (lookup-set_servers "ZBX_PASSIVE_ALLOW" "ZBX_PASSIVESERVERS")
            (rw (lookup-set_servers "ZBX_PASSIVE_ALLOW" "ZBX_PASSIVESERVERS") refl))))

-- The host of the server: a missing variable has a default.
abbrev pub IsHost : Environment → String → Type 0
IsHost env host =
    (lookup "ZBX_SERVER_HOST" env ≡ some host)
    ⊎ ((lookup "ZBX_SERVER_HOST" env ≡ none) × (host ≡ "zabbix-server"))

-- The host, with a port that is not the default one.
abbrev pub IsEntry : String → String → String → Type 0
IsEntry host port entry =
    (((port ≡ "") ⊎ (port ≡ "10051")) × (entry ≡ host))
    ⊎ ((port ≢ "") × (port ≢ "10051") × (entry ≡ host <> ":" <> port))

-- The entry in front of the servers that are there, if there is a host.
abbrev pub IsServers : String → String → String → String → Type 0
IsServers host entry old servers =
    ((host ≡ "") × (servers ≡ old))
    ⊎ ((host ≢ "") × (old ≡ "") × (servers ≡ entry))
    ⊎ ((host ≢ "") × (old ≢ "") × (servers ≡ entry <> "," <> old))

abbrev pub Allows : String → Type 0
Allows switch = (switch ≡ "") ⊎ (equal_fold (chars switch) (chars "true") ≡ true)

-- Servers that are allowed are in the variable, unless there is none; otherwise it is unset.
abbrev pub IsPublished : String → String → Option String → Type 0
IsPublished switch servers value =
    (Allows switch × (servers ≢ "") × (value ≡ some servers))
    ⊎ (((¬ (Allows switch)) ⊎ (servers ≡ "")) × (value ≡ none))

differs : (s t : String) → (s == t) ≡ false → s ≢ t
differs s t h same = cc (h, (string_eq.beq_iff s t).1 same)

value_or_default-IsHost :
    (env : Environment) → IsHost env (value_or_default env "ZBX_SERVER_HOST" "zabbix-server")
unfolding value_or_default
value_or_default-IsHost env = elim (Option-cases (lookup "ZBX_SERVER_HOST" env)) [
  | inl e ↦ inr (e, rw (e, value_or_default) refl)
  | inr (host, e) ↦ inl (rw (e, value_or_default) refl)
]

active_server-IsEntry :
    (env : Environment) (host : String)
    → IsEntry host (get env "ZBX_SERVER_PORT") (active_server env host)
unfolding active_server
active_server-IsEntry env host = elim (Bool-cases (get env "ZBX_SERVER_PORT" == "")) [
  | inl e ↦
      inl (inl ((string_eq.beq_iff (get env "ZBX_SERVER_PORT") "").0 e), rw (e, active_server) refl)
  | inr f ↦ elim (Bool-cases (get env "ZBX_SERVER_PORT" == "10051")) [
    | inl e ↦ inl (
      inr ((string_eq.beq_iff (get env "ZBX_SERVER_PORT") "10051").0 e),
      rw (f, active_server, e) refl,
    )
    | inr g ↦ inr (
      differs (get env "ZBX_SERVER_PORT") "" f,
      differs (get env "ZBX_SERVER_PORT") "10051" g,
      rw (f, active_server, g) refl,
    )
  ]
]

with_server-IsServers :
    (host entry old : String) → IsServers host entry old (with_server host entry old)
unfolding prepend_server
with_server-IsServers host entry old = elim (Bool-cases (host == "")) [
  | inl e ↦ inl ((string_eq.beq_iff host "").0 e, rw e refl)
  | inr f ↦ elim (Bool-cases (old == "")) [
    | inl e ↦
        inr
          (inl (differs host "" f, (string_eq.beq_iff old "").0 e, rw (f, prepend_server, e) refl))
    | inr g ↦ inr (inr (differs host "" f, differs old "" g, rw (f, prepend_server, g) refl))
  ]
]

is_allowed-cases :
    (switch : String)
    → ((is_allowed switch ≡ true) × Allows switch)
      ⊎ ((is_allowed switch ≡ false) × (¬ (Allows switch)))
unfolding is_allowed
is_allowed-cases switch = elim (Bool-cases (switch == "")) [
  | inl e ↦ inl (rw (e, is_allowed) refl, inl ((string_eq.beq_iff switch "").0 e))
  | inr f ↦ elim (Bool-cases (equal_fold (chars switch) (chars "true"))) [
    | inl e ↦ inl (rw (f, is_allowed, e) refl, inr e)
    | inr g ↦ inr (
      rw (f, is_allowed, g) refl,
      λ allows. elim allows [ inl same ↦ differs switch "" f same | inr e ↦ cc (g, e) ],
    )
  ]
]

published-IsPublished :
    (switch servers : String) → IsPublished switch servers (published switch servers)
published-IsPublished switch servers = elim (is_allowed-cases switch) [
  | inr (f, n) ↦ inr (inl n, rw f refl)
  | inl (t, allows) ↦ elim (Bool-cases (servers == "")) [
    | inl e ↦ inr (inr ((string_eq.beq_iff servers "").0 e), rw (t, e) refl)
    | inr g ↦ inl (allows, differs servers "" g, rw (t, g) refl)
  ]
]

-- What changes, and that nothing else does.
configure_servers-changed :
    (env : Environment) (key : String)
    → (key ≡ "ZBX_SERVER_PORT")
      ⊎ (key ≡ "ZBX_SERVER_HOST")
      ⊎ (key ≡ "ZBX_ACTIVESERVERS")
      ⊎ (key ≡ "ZBX_PASSIVESERVERS")
      ⊎ (lookup key (configure_servers env) ≡ lookup key env)
configure_servers-changed env key = elim (Bool-cases ("ZBX_SERVER_PORT" == key)) [
  | inl e ↦ inl (sym ((string_eq.beq_iff "ZBX_SERVER_PORT" key).0 e))
  | inr p ↦ elim (Bool-cases ("ZBX_SERVER_HOST" == key)) [
    | inl e ↦ inr (inl (sym ((string_eq.beq_iff "ZBX_SERVER_HOST" key).0 e)))
    | inr h ↦ elim (Bool-cases ("ZBX_ACTIVESERVERS" == key)) [
      | inl e ↦ inr (inr (inl (sym ((string_eq.beq_iff "ZBX_ACTIVESERVERS" key).0 e))))
      | inr a ↦ elim (Bool-cases ("ZBX_PASSIVESERVERS" == key)) [
        | inl e ↦ inr (inr (inr (inl (sym ((string_eq.beq_iff "ZBX_PASSIVESERVERS" key).0 e)))))
        | inr q ↦ inr (inr (inr (inr (configure_servers-eq env key ∙ rw (p, h, a, q) refl))))
      ]
    ]
  ]
]

-- The host of the server, with a default for a missing variable, is put in front of both lists of servers
-- unless it is empty, with a port that is neither empty nor 10051 in the list of the active ones. A list is in its variable
-- afterwards if its switch is empty or `true` in any case and the list is not empty; otherwise the variable
-- is unset. The host and the port are unset, and no other variable changes.
pub configure_servers-lookup :
    (env : Environment) (key : String)
    → (host : String) × (entry : String) × (passive : String) × (active : String) × IsHost env host
      × IsEntry host (get env "ZBX_SERVER_PORT") entry
      × IsServers host host (get env "ZBX_PASSIVESERVERS") passive
      × IsServers host entry (get env "ZBX_ACTIVESERVERS") active
      × IsPublished
          (get env "ZBX_PASSIVE_ALLOW")
          passive
          (lookup "ZBX_PASSIVESERVERS" (configure_servers env))
      × IsPublished
          (get env "ZBX_ACTIVE_ALLOW")
          active
          (lookup "ZBX_ACTIVESERVERS" (configure_servers env))
      × (lookup "ZBX_SERVER_HOST" (configure_servers env) ≡ none)
      × (lookup "ZBX_SERVER_PORT" (configure_servers env) ≡ none)
      × ((key ≡ "ZBX_SERVER_PORT")
          ⊎ (key ≡ "ZBX_SERVER_HOST")
          ⊎ (key ≡ "ZBX_ACTIVESERVERS")
          ⊎ (key ≡ "ZBX_PASSIVESERVERS")
          ⊎ (lookup key (configure_servers env) ≡ lookup key env))
configure_servers-lookup env key =
    let host = value_or_default env "ZBX_SERVER_HOST" "zabbix-server" in
    let entry = active_server env host in
    let passive = with_server host host (get env "ZBX_PASSIVESERVERS") in
    let active = with_server host entry (get env "ZBX_ACTIVESERVERS") in
    (
      host,
      entry,
      passive,
      active,
      value_or_default-IsHost env,
      active_server-IsEntry env host,
      with_server-IsServers host host (get env "ZBX_PASSIVESERVERS"),
      with_server-IsServers host entry (get env "ZBX_ACTIVESERVERS"),
      rw (configure_servers-eq env "ZBX_PASSIVESERVERS")
          (published-IsPublished (get env "ZBX_PASSIVE_ALLOW") passive),
      rw (configure_servers-eq env "ZBX_ACTIVESERVERS")
          (published-IsPublished (get env "ZBX_ACTIVE_ALLOW") active),
      configure_servers-eq env "ZBX_SERVER_HOST",
      configure_servers-eq env "ZBX_SERVER_PORT",
      configure_servers-changed env key,
    )
