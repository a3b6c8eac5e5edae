-- ===== src/Bootstrap/SecretFiles/Resolved.antt =====
-- What the resolution of a file secret leaves in the environment.
use zabbix_docker.Base.{
  String, ◌≡◌, refl, ap, ◌⊎◌, inl, inr, false, none, Bool-cases, ◌==◌, nat_eq, char_eq, string_eq,
  list_eq, beq_refl, Result, ok, Result-cases, ok-injective, chars,
}
use zabbix_docker.Base.Exec.{Exec, pure, ◌>>=◌, wrap_err, continue_with}
use zabbix_docker.Base.Dict.{lookup, insert, erase, lookup-insert, lookup-erase}
use zabbix_docker.Bootstrap.Environment.{Environment, get}
use zabbix_docker.Bootstrap.SecretRegistry.{FileSecretSpec}
use zabbix_docker.Bootstrap.SecretFiles.{
  SecretError, remove_failed, write_failed, SecretRoots, SecretFiles, managed_path, locate_secret,
  resolve_file_secret,
}

erased :
    (a b : String) (env : Environment)
    → (b == a) ≡ false
    → (v : String) → lookup a (insert b v (erase a env)) ≡ none
erased a b env h v =
    rw (lookup-insert a b v (erase a env)) (rw h (rw (lookup-erase a a env) (rw (beq_refl a) refl)))

erased_twice : (a b : String) (env : Environment) → lookup a (erase b (erase a env)) ≡ none
erased_twice a b env = rw (lookup-erase a b (erase a env)) (
    rw (lookup-erase a a env)
      (rw (beq_refl a) (elim (Bool-cases (b == a)) [ inl h ↦ rw h refl | inr h ↦ rw h refl ])))

unset : (a b : String) (env : Environment) → lookup a env ≡ none → lookup a (erase b env) ≡ none
unset a b env n =
    rw (lookup-erase a b env) (elim (Bool-cases (b == a)) [ inl h ↦ rw h refl | inr h ↦ rw h n ])

-- What a chain that ends in `pure` returns.
bind_pure-ok :
    {W A : Type 0} (m : Exec W SecretError A) (f : A → Environment) (w w' : W) (env' : Environment)
    → (m >>= λ a. pure (f a)) w ≡ (ok env', w')
    → (a : A) × (f a ≡ env')
bind_pure-ok m f w w' env' h = elim (Result-cases (m w).0) [
  | inl (a, q) ↦ (
    a,
    ok-injective
        (ap (λ (p : Result SecretError Environment × _). p.0) (rw (q, continue_with) at h)),
  )
  | inr (e, q) ↦
      absurd
        (cc (ap (λ (p : Result SecretError Environment × _). p.0) (rw (q, continue_with) at h)))
]

module _ {W : Type 0} (roots : SecretRoots) (os : SecretFiles W) where
  -- What the environment is after a file secret that is resolved: the variable with the secret is gone, and
  -- that with the file is gone or set.
  abbrev IsResolved : FileSecretSpec → Environment → Environment → Type 0
  IsResolved spec env env' =
      (erase spec.file (erase spec.inline env) ≡ env')
      ⊎ ((path : String) × (insert spec.file path (erase spec.inline env) ≡ env'))

  resolve_file_secret-IsResolved :
      (spec : FileSecretSpec) (env env' : Environment) (w w' : W)
      → resolve_file_secret roots os spec env w ≡ (ok env', w')
      → IsResolved spec env env'
  unfolding resolve_file_secret
  resolve_file_secret-IsResolved spec env env' w w' h =
      let remove = wrap_err remove_failed (os.remove_secret (managed_path roots os spec)) in
      let erased_file = λ (_ : Unit {0}). erase spec.file (erase spec.inline env) in
      elim (Bool-cases spec.active) [
        | inr n ↦
            inl (bind_pure-ok remove erased_file w w' env' (simp (n, resolve_file_secret) at h)).1
        | inl a ↦ elim (Bool-cases (get env spec.inline == "")) [
          | inl i ↦ elim (Bool-cases (get env spec.file == "")) [
            | inl p ↦
                inl
                  (bind_pure-ok remove erased_file w w' env'
                    (simp (a, i, p, resolve_file_secret) at h)).1
            | inr p ↦ inr (
                bind_pure-ok
                  (locate_secret roots os spec.file (get env spec.file) spec.category spec.standard
                    spec.legacy_dir)
                  (λ resolved. insert spec.file resolved (erase spec.inline env)) w w' env'
                  (simp (a, i, p, resolve_file_secret) at h))
          ]
          | inr i ↦ elim (Bool-cases (get env spec.file == "")) [
            | inl p ↦ inr (
              managed_path roots os spec,
              (bind_pure-ok
                  (wrap_err (write_failed spec.file)
                    (os.write_secret (managed_path roots os spec) (chars (get env spec.inline))))
                  (λ _. insert spec.file (managed_path roots os spec) (erase spec.inline env)) w w'
                  env' (simp (a, i, p, resolve_file_secret) at h)).1,
            )
            | inr p ↦ absurd (
                cc (
                  ap (λ (p : Result SecretError Environment × W). p.0)
                    (simp (a, i, p, resolve_file_secret) at h)))
          ]
        ]
      ]

  -- If the resolution of a file secret succeeds, the variable with the secret itself is gone from the
  -- environment, on every branch.
  pub resolve_file_secret-hides :
      (spec : FileSecretSpec) (env env' : Environment) (w w' : W)
      → (spec.file == spec.inline) ≡ false
      → resolve_file_secret roots os spec env w ≡ (ok env', w')
      → lookup spec.inline env' ≡ none
  resolve_file_secret-hides spec env env' w w' d h =
      elim (resolve_file_secret-IsResolved spec env env' w w' h) [
        | inl same ↦ rw (← same) (erased_twice spec.inline spec.file env)
        | inr (path, same) ↦ rw (← same) (erased spec.inline spec.file env d path)
      ]

  -- A variable that is not set, and is not that of the file, is not set then.
  pub resolve_file_secret-unset :
      (spec : FileSecretSpec) (name : String) (env env' : Environment) (w w' : W)
      → (spec.file == name) ≡ false
      → lookup name env ≡ none
      → resolve_file_secret roots os spec env w ≡ (ok env', w')
      → lookup name env' ≡ none
  resolve_file_secret-unset spec name env env' w w' d n h =
      elim (resolve_file_secret-IsResolved spec env env' w w' h) [
        | inl same ↦ rw (← same) (
            rw (lookup-erase name spec.file (erase spec.inline env))
              (rw d (unset name spec.inline env n)))
        | inr (path, same) ↦ rw (← same) (
            rw (lookup-insert name spec.file path (erase spec.inline env))
              (rw d (unset name spec.inline env n)))
      ]
