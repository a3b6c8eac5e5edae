-- ===== src/Bootstrap/SecretCa/CopyOne.antt =====
-- What the copying of one certificate does.
use zabbix_docker.Base.{
  String, ◌≡◌, ap, ◌≢◌, ◌⊎◌, inl, inr, none, some, [], ◌∷◌, Bool-cases, Option-cases, ◌==◌, nat_eq,
  char_eq, string_eq, list_eq, Result, ok, Result-cases, ok-injective, Text,
}
use zabbix_docker.Base.Dict.{lookup, insert, lookup-insert}
use zabbix_docker.Base.Exec.{Exec, pure, ◌>>=◌, ◌>>◌, wrap_err, continue_with}
use zabbix_docker.Bootstrap.Managed.{ManagedOps, write_secret}
use zabbix_docker.Bootstrap.SecretFiles.{SecretRoots, join_strings}
use zabbix_docker.Bootstrap.SecretDirs.{
  CaError, read_file_failed, WorldFiles, State, world, generated,
}
use zabbix_docker.Bootstrap.SecretCa.{Names, copy_one}

module _ {W Root File : Type 0} (ops : ManagedOps W Root File) (fs : WorldFiles W)
    (roots : SecretRoots) (target : String) where
  -- What a chain that ends in `pure` returns.
  pure-result :
      {A B : Type 0} (m : Exec (State ops fs roots) CaError A) (b : B) (s s' : State ops fs roots)
      (b' : B)
      → (m >>= λ a. pure b) s ≡ (ok b', s')
      → b ≡ b'
  pure-result {B = B} m b s s' b' h = elim (Result-cases (m s).0) [
    | inl (a, q) ↦
        ok-injective
          (ap (λ (p : Result CaError B × State ops fs roots). p.0) (rw (q, continue_with) at h))
    | inr (e, q) ↦
        absurd (
          cc (ap (λ (p : Result CaError B × State ops fs roots). p.0) (rw (q, continue_with) at h)))
  ]

  chain-result :
      {A B C : Type 0} (m : Exec (State ops fs roots) CaError A)
      (f : A → Exec (State ops fs roots) CaError C) (b : B) (s s' : State ops fs roots) (b' : B)
      → (m >>= λ a. f a >> pure b) s ≡ (ok b', s')
      → b ≡ b'
  chain-result {B = B} m f b s s' b' h = elim (Result-cases (m s).0) [
    | inl (a, q) ↦ pure-result (f a) b (m s).1 s' b' (rw (q, continue_with) at h)
    | inr (e, q) ↦
        absurd (
          cc (ap (λ (p : Result CaError B × State ops fs roots). p.0) (rw (q, continue_with) at h)))
  ]

  -- The parts of reading a file and writing what was read.
  written :
      (path : String) (names names' : Names) (s s' : State ops fs roots)
      → path ≢ ""
      → (wrap_err (read_file_failed path) (world ops fs roots (fs.read_file path)) >>= λ data_.
            generated ops fs roots
              (write_secret ops roots.internal (join_strings (target ∷ fs.base path ∷ [])) data_)
            >> pure names)
          s
        ≡ (ok names', s')
      → (data_ : Text) × (t : State ops fs roots) × (path ≢ "")
        × (world ops fs roots (fs.read_file path) s ≡ (ok data_, t))
        × (write_secret ops roots.internal (join_strings (target ∷ fs.base path ∷ [])) data_ t
            ≡ (ok tt, s'))
  written path names names' (w, root) s' n h = elim (Result-cases (fs.read_file path w).0) [
    | inr (e, q) ↦ absurd (
        cc (
          ap (λ (p : Result CaError Names × State ops fs roots). p.0) (rw (q, continue_with) at h)))
    | inl (d, q) ↦
        let t : State ops fs roots = ((fs.read_file path w).1, root) in
        let to = join_strings (target ∷ fs.base path ∷ []) in
        let h' = rw (q, continue_with) at h in
        elim (Result-cases (write_secret ops roots.internal to d t).0) [
          | inr (e, q') ↦ absurd (
              cc (
                ap (λ (p : Result CaError Names × State ops fs roots). p.0)
                  (rw (q', continue_with) at h')))
          | inl (_, q') ↦ (
            d,
            t,
            n,
            cc q,
            cc (
              q',
              ap (λ (p : Result CaError Names × State ops fs roots). p.1)
                  (rw (q', continue_with) at h'),
            ),
          )
        ]
  ]

  pub copy_one-result :
      (path : String) (names names' : Names) (s s' : State ops fs roots)
      → copy_one ops fs roots target path names s ≡ (ok names', s')
      → ((path ≡ "") × (names ≡ names'))
        ⊎ ((lookup (fs.base path) names ≡ none) × (insert (fs.base path) path names ≡ names'))
  unfolding copy_one
  copy_one-result path names names' s s' h = elim (Bool-cases (path == "")) [
    | inl e ↦ inl (
      (string_eq.beq_iff path "").0 e,
      ok-injective
          (ap (λ (p : Result CaError Names × State ops fs roots). p.0) (rw (e, copy_one) at h)),
    )
    | inr e ↦ elim (Option-cases (lookup (fs.base path) names)) [
      | inr (previous, f) ↦ absurd (
          cc (
            ap (λ (p : Result CaError Names × State ops fs roots). p.0)
              (simp (e, f, copy_one) at h)))
      | inl f ↦ inr (
        f,
        chain-result (wrap_err (read_file_failed path) (world ops fs roots (fs.read_file path)))
            (λ data_.
              generated ops fs roots
                (write_secret ops roots.internal (join_strings (target ∷ fs.base path ∷ [])) data_))
            (insert (fs.base path) path names) s s' names' (simp (e, f, copy_one) at h),
      )
    ]
  ]

  -- What is there stays there.
  pub copy_one-keeps :
      (path name source : String) (names names' : Names) (s s' : State ops fs roots)
      → copy_one ops fs roots target path names s ≡ (ok names', s')
      → lookup name names ≡ some source
      → lookup name names' ≡ some source
  copy_one-keeps path name source names names' s s' h l =
      elim (copy_one-result path names names' s s' h) [
        | inl (_, same) ↦ rw same at l
        | inr (fresh, same) ↦ rw (← same) (
            rw (lookup-insert name (fs.base path) path names)
              (elim (Bool-cases (fs.base path == name)) [
                | inl e ↦ cc (rw ((string_eq.beq_iff (fs.base path) name).0 e) at fresh, l)
                | inr e ↦ rw e l
              ]))
      ]

  -- What is done for one path.
  pub copy_one-effect :
      (path : String) (names names' : Names) (s s' : State ops fs roots)
      → copy_one ops fs roots target path names s ≡ (ok names', s')
      → ((path ≡ "") × (s ≡ s'))
        ⊎ ((data_ : Text) × (t : State ops fs roots) × (path ≢ "")
            × (world ops fs roots (fs.read_file path) s ≡ (ok data_, t))
            × (write_secret ops roots.internal (join_strings (target ∷ fs.base path ∷ [])) data_ t
                ≡ (ok tt, s')))
  unfolding copy_one
  copy_one-effect path names names' s s' h = elim (Bool-cases (path == "")) [
    | inl e ↦ inl (
      (string_eq.beq_iff path "").0 e,
      ap (λ (p : Result CaError Names × State ops fs roots). p.1) (rw (e, copy_one) at h),
    )
    | inr e ↦ elim (Option-cases (lookup (fs.base path) names)) [
      | inr (previous, f) ↦ absurd (
          cc (
            ap (λ (p : Result CaError Names × State ops fs roots). p.0)
              (simp (e, f, copy_one) at h)))
      | inl f ↦ inr (
          written path (insert (fs.base path) path names) names' s s'
            (λ same. cc (e, (string_eq.beq_iff path "").1 same)) (simp (e, f, copy_one) at h))
    ]
  ]
