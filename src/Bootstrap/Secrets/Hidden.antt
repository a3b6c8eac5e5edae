-- ===== src/Bootstrap/Secrets/Hidden.antt =====
-- The secrets that are left in the environment after the file secrets are resolved.
use zabbix_docker.Base.{
  String, ◌≡◌, ap, inl, inr, false, none, List, [], ◌∷◌, ◌==◌, nat_eq, char_eq, string_eq, list_eq,
  Result, ok, Result-cases, ok-injective, All,
}
use zabbix_docker.Base.Dict.{lookup}
use zabbix_docker.Base.Exec.{continue_with}
use zabbix_docker.Bootstrap.Environment.{Environment}
use zabbix_docker.Bootstrap.SecretRegistry.{FileSecretSpec}
use zabbix_docker.Bootstrap.SecretFiles.{SecretError, SecretRoots, SecretFiles, resolve_file_secret}
use zabbix_docker.Bootstrap.SecretFiles.Resolved.{
  resolve_file_secret-hides, resolve_file_secret-unset,
}
use zabbix_docker.Bootstrap.Secrets.{resolve_file_secrets}

-- No spec's file variable has the name.
abbrev pub NoFile : List FileSecretSpec → String → Type 0
NoFile specs name = All (λ (t : FileSecretSpec). (t.file == name) ≡ false) specs

-- No variable holds both a secret and the file of a secret.
abbrev pub IsDisjoint : List FileSecretSpec → Type 0
IsDisjoint specs = All (λ (s : FileSecretSpec). NoFile specs s.inline) specs

tail_NoFile :
    (spec : FileSecretSpec) (specs others : List FileSecretSpec)
    → All (λ (s : FileSecretSpec). NoFile (spec ∷ specs) s.inline) others
    → All (λ (s : FileSecretSpec). NoFile specs s.inline) others
tail_NoFile spec specs [] h = tt
tail_NoFile spec specs (other ∷ others) (h, hs) = (h.1, tail_NoFile spec specs others hs)

module _ {W : Type 0} (roots : SecretRoots) (os : SecretFiles W) where
  -- The first spec of a list that is resolved, and the rest.
  resolve_file_secrets-cons :
      (spec : FileSecretSpec) (specs : List FileSecretSpec) (env env' : Environment) (w w' : W)
      → resolve_file_secrets roots os (spec ∷ specs) env w ≡ (ok env', w')
      → (between : Environment) × (v : W) × (resolve_file_secret roots os spec env w
          ≡ (ok between, v))
        × (resolve_file_secrets roots os specs between v ≡ (ok env', w'))
  unfolding resolve_file_secrets
  resolve_file_secrets-cons spec specs env env' w w' h =
      elim (Result-cases (resolve_file_secret roots os spec env w).0) [
        | inl (between, e) ↦
            (between, (resolve_file_secret roots os spec env w).1, cc e, rw (e, continue_with) at h)
        | inr (x, e) ↦
            absurd (
              cc
                (ap (λ (p : Result SecretError Environment × W). p.0) (rw (e, continue_with) at h)))
      ]

  resolve_file_secrets-unset :
      (specs : List FileSecretSpec) (name : String) (env env' : Environment) (w w' : W)
      → NoFile specs name
      → lookup name env ≡ none
      → resolve_file_secrets roots os specs env w ≡ (ok env', w')
      → lookup name env' ≡ none
  unfolding resolve_file_secrets
  resolve_file_secrets-unset [] name env env' w w' d n h =
      rw (ok-injective (ap (λ (p : Result SecretError Environment × W). p.0) h)) at n
  resolve_file_secrets-unset (spec ∷ specs) name env env' w w' (d, ds) n h =
      let (between, v, first, rest) = resolve_file_secrets-cons spec specs env env' w w' h in
      resolve_file_secrets-unset specs name between env' v w' ds
        (resolve_file_secret-unset roots os spec name env between w v d n first) rest

  -- When all file secrets of a plan are resolved, every variable that held a secret itself is gone from
  -- the environment, if no such variable is also that of a file.
  pub resolve_file_secrets-hides :
      (specs : List FileSecretSpec) (env env' : Environment) (w w' : W)
      → IsDisjoint specs
      → resolve_file_secrets roots os specs env w ≡ (ok env', w')
      → All (λ (spec : FileSecretSpec). lookup spec.inline env' ≡ none) specs
  resolve_file_secrets-hides [] env env' w w' d h = tt
  resolve_file_secrets-hides (spec ∷ specs) env env' w w' ((d, ds), rest_disjoint) h =
      let (between, v, first, rest) = resolve_file_secrets-cons spec specs env env' w w' h in
      (
        resolve_file_secrets-unset specs spec.inline between env' v w' ds
            (resolve_file_secret-hides roots os spec env between w v d first) rest,
        resolve_file_secrets-hides specs between env' v w'
            (tail_NoFile spec specs specs rest_disjoint) rest,
      )
