-- ===== src/Bootstrap/SecretFiles/Alias.antt =====
-- A deprecated variable and the one that replaces it.
use zabbix_docker.Base.{
  String, ◌≡◌, refl, sym, ◌∙◌, inl, inr, false, none, if◌then◌else◌, Bool-cases, ◌==◌, nat_eq,
  char_eq, string_eq, list_eq, beq_refl, ok, ok-injective,
}
use zabbix_docker.Base.Dict.{lookup, insert, erase, lookup-insert, lookup-erase}
use zabbix_docker.Bootstrap.Environment.{Environment, get}
use zabbix_docker.Bootstrap.SecretRegistry.{SecretAlias}
use zabbix_docker.Bootstrap.SecretFiles.{normalize_secret_alias}

-- The value that the variable is to have.
abbrev pub merged : SecretAlias → Environment → String
merged alias env =
    if get env alias.legacy == "" then get env alias.canonical else get env alias.legacy

get-erase : (a b : String) (env : Environment) → (a == b) ≡ false → get (erase a env) b ≡ get env b
get-erase a b env h = rw (lookup-erase b a env) (rw h refl)

get-erase-insert :
    (a b value : String) (env : Environment)
    → (a == b) ≡ false
    → get (erase a (insert b value env)) b ≡ value
get-erase-insert a b value env h =
    rw (lookup-erase b a (insert b value env))
      (rw h (rw (lookup-insert b b value env) (rw (beq_refl b) refl)))

erased : (a : String) (env : Environment) → lookup a (erase a env) ≡ none
erased a env = rw (lookup-erase a a env) (rw (beq_refl a) refl)

-- If the normalization of an alias succeeds, the deprecated variable is gone, and its replacement has the
-- deprecated variable's value where that one was not empty and its own value otherwise.
pub normalize_secret_alias-merged :
    (alias : SecretAlias) (env env' : Environment)
    → (alias.legacy == alias.canonical) ≡ false
    → normalize_secret_alias alias env ≡ ok env'
    → (lookup alias.legacy env' ≡ none) × (get env' alias.canonical ≡ merged alias env)
unfolding normalize_secret_alias
normalize_secret_alias-merged alias env env' d h = elim (Bool-cases (get env alias.legacy == "")) [
  | inl e ↦
      let same : erase alias.legacy env ≡ env' =
        ok-injective (rw (e, normalize_secret_alias) at h) in
      rw (← same)
        (erased alias.legacy env, get-erase alias.legacy alias.canonical env d ∙ rw e refl)
  | inr e ↦ elim (Bool-cases (get env alias.canonical == "")) [
    | inl c ↦
        let same : erase alias.legacy (insert alias.canonical (get env alias.legacy) env) ≡ env' =
          ok-injective (rw c at (rw (e, normalize_secret_alias) at h)) in
        rw (← same) (
          erased alias.legacy (insert alias.canonical (get env alias.legacy) env),
          get-erase-insert alias.legacy alias.canonical (get env alias.legacy) env d ∙ rw e refl,
        )
    | inr c ↦ elim (Bool-cases (get env alias.legacy == get env alias.canonical)) [
      | inr q ↦ cc (rw q at (rw c at (rw (e, normalize_secret_alias) at h)))
      | inl q ↦
          let same : erase alias.legacy env ≡ env' =
            ok-injective (rw q at (rw c at (rw (e, normalize_secret_alias) at h))) in
          rw (← same) (
            erased alias.legacy env,
            get-erase alias.legacy alias.canonical env d
                ∙ sym ((string_eq.beq_iff (get env alias.legacy) (get env alias.canonical)).0 q)
                ∙ rw e refl,
          )
    ]
  ]
]
