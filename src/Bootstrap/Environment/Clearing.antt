-- ===== src/Bootstrap/Environment/Clearing.antt =====
-- What `ClearPrivateEnv` leaves.
use text.Mathlib.TextEquality.{starts_with_iff}
use zabbix_docker.Base.{
  String, ◌<>◌, ◌≡◌, refl, sym, ap, ◌∙◌, ◌≢◌, ◌⊎◌, inl, inr, true, false, none, List, [], ◌∷◌,
  starts_with, Bool-cases, ◌==◌, nat_eq, char_eq, string_eq, list_eq, In, here, there,
}
use zabbix_docker.Base.Dict.{lookup, lookup-erase_where}
use zabbix_docker.Bootstrap.Environment.{
  Environment, get, clear_private_env, has_any_prefix, private_prefixes,
}

-- The name starts with a prefix of the list.
abbrev pub HasPrefix : List String → String → Type 0
HasPrefix prefixes name =
    (prefix : String) × (rest : String) × In prefix prefixes × (prefix <> rest ≡ name)

-- The names that are private: those with one of the given prefixes, or with one of the default ones where
-- none is given.
abbrev pub IsPrivate : List String → String → Type 0
IsPrivate [] name =
    (rest : String) × (("ZABBIX_" <> rest ≡ name)
      ⊎ ("DB_" <> rest ≡ name)
      ⊎ ("MYSQL_" <> rest ≡ name)
      ⊎ ("POSTGRES_" <> rest ≡ name))
IsPrivate (prefix ∷ prefixes) name = HasPrefix (prefix ∷ prefixes) name

has_any_prefix-cases :
    (name : String) (prefixes : List String)
    → ((has_any_prefix name prefixes ≡ true) × HasPrefix prefixes name)
      ⊎ ((has_any_prefix name prefixes ≡ false) × ¬ (HasPrefix prefixes name))
unfolding has_any_prefix
has_any_prefix-cases name [] = inr (refl, λ (p, rest, m, e). elim m [ ])
has_any_prefix-cases name (prefix ∷ prefixes) = elim (Bool-cases (starts_with name prefix)) [
  | inl t ↦
      let (rest, e) = (starts_with_iff name prefix).0 t in inl (rw t, (prefix, rest, here refl, e))
  | inr f ↦ elim (has_any_prefix-cases name prefixes) [
    | inl (t, (p, rest, m, e)) ↦ inl (rw f t, (p, rest, there m, e))
    | inr (g, n) ↦ inr (
      rw f g,
      λ (p, rest, m, e). elim m [
        | here same ↦
            cc (f, (starts_with_iff name prefix).1 (rest, ap (λ q. q <> rest) (sym same) ∙ e))
        | there k ↦ n (p, rest, k, e)
      ],
    )
  ]
]

abbrev default_prefixes : List String
default_prefixes = "ZABBIX_" ∷ "DB_" ∷ "MYSQL_" ∷ "POSTGRES_" ∷ []

default-IsPrivate : (name : String) → HasPrefix default_prefixes name → IsPrivate [] name
default-IsPrivate name (p, rest, here same, e) = (rest, inl (ap (λ q. q <> rest) (sym same) ∙ e))
default-IsPrivate name (p, rest, there (here same), e) =
    (rest, inr (inl (ap (λ q. q <> rest) (sym same) ∙ e)))
default-IsPrivate name (p, rest, there (there (here same)), e) =
    (rest, inr (inr (inl (ap (λ q. q <> rest) (sym same) ∙ e))))
default-IsPrivate name (p, rest, there (there (there (here same))), e) =
    (rest, inr (inr (inr (ap (λ q. q <> rest) (sym same) ∙ e))))
default-IsPrivate name (p, rest, there (there (there (there m))), e) = elim m [ ]

IsPrivate-default : (name : String) → IsPrivate [] name → HasPrefix default_prefixes name
IsPrivate-default name (rest, inl e) = ("ZABBIX_", rest, here refl, e)
IsPrivate-default name (rest, inr (inl e)) = ("DB_", rest, there (here refl), e)
IsPrivate-default name (rest, inr (inr (inl e))) = ("MYSQL_", rest, there (there (here refl)), e)
IsPrivate-default name (rest, inr (inr (inr e))) =
    ("POSTGRES_", rest, there (there (there (here refl))), e)

IsPrivate-cases :
    (name : String) (prefixes : List String)
    → ((has_any_prefix name (private_prefixes prefixes) ≡ true) × IsPrivate prefixes name)
      ⊎ ((has_any_prefix name (private_prefixes prefixes) ≡ false) × ¬ (IsPrivate prefixes name))
IsPrivate-cases name [] = elim (has_any_prefix-cases name default_prefixes) [
  | inl (t, h) ↦ inl (t, default-IsPrivate name h)
  | inr (f, n) ↦ inr (f, λ h. n (IsPrivate-default name h))
]
IsPrivate-cases name (prefix ∷ prefixes) = has_any_prefix-cases name (prefix ∷ prefixes)

-- The cleanup removes exactly the variables whose name starts with one of the given prefixes, or with
-- ZABBIX_, DB_, MYSQL_ or POSTGRES_ where none is given, and removes none if ZBX_CLEAR_ENV is `false`; every
-- other variable keeps its value.
pub lookup-clear_private_env :
    (env : Environment) (prefixes : List String) (name : String)
    → (IsPrivate prefixes name
        × (get env "ZBX_CLEAR_ENV" ≢ "false")
        × (lookup name (clear_private_env env prefixes) ≡ none))
      ⊎ (((get env "ZBX_CLEAR_ENV" ≡ "false") ⊎ (¬ (IsPrivate prefixes name)))
          × (lookup name (clear_private_env env prefixes) ≡ lookup name env))
unfolding clear_private_env
lookup-clear_private_env env prefixes name =
    elim (Bool-cases (get env "ZBX_CLEAR_ENV" == "false")) [
      | inl off ↦ inr (
        inl ((string_eq.beq_iff (get env "ZBX_CLEAR_ENV") "false").0 off),
        rw (off, clear_private_env),
      )
      | inr on ↦
          let erased =
            lookup-erase_where (λ n. has_any_prefix n (private_prefixes prefixes)) name env in
          elim (IsPrivate-cases name prefixes) [
            | inl (t, h) ↦ inl (
              h,
              λ e. cc (on, (string_eq.beq_iff (get env "ZBX_CLEAR_ENV") "false").1 e),
              rw (on, clear_private_env) (rw t at erased),
            )
            | inr (f, n) ↦ inr (inr n, rw (on, clear_private_env) (rw f at erased))
          ]
    ]
