-- ===== src/Bootstrap/SecretCa/Copied.antt =====
-- The certificates that are copied into a generated directory.
use zabbix_docker.Base.{
  String, ◌≡◌, refl, ap, ◌≢◌, ◌⊎◌, inl, inr, some, List, [], ◌∷◌, nat_eq, char_eq, string_eq,
  list_eq, beq_refl, Result, ok, Result-cases, ok-injective, All, Text,
}
use zabbix_docker.Base.Dict.{lookup, lookup-insert}
use zabbix_docker.Base.Exec.{continue_with}
use zabbix_docker.Bootstrap.Managed.{ManagedOps, write_secret}
use zabbix_docker.Bootstrap.SecretFiles.{SecretRoots, join_strings}
use zabbix_docker.Bootstrap.SecretDirs.{CaError, WorldFiles, State, world}
use zabbix_docker.Bootstrap.SecretCa.{Names, copy_one, copy_files}
use zabbix_docker.Bootstrap.SecretCa.CopyOne.{copy_one-result, copy_one-keeps, copy_one-effect}

module _ {W Root File : Type 0} (ops : ManagedOps W Root File) (fs : WorldFiles W)
    (roots : SecretRoots) (target : String) where
  -- What is done for a list of paths: the data of each one that is not empty is read, and written as the
  -- secret of its own file name in the directory.
  unfoldable pub Copies : List String → State ops fs roots → State ops fs roots → Type 0
  Copies [] s s' = s ≡ s'
  Copies (path ∷ paths) s s' =
      ((path ≡ "") × Copies paths s s')
      ⊎ ((data_ : Text) × (t : State ops fs roots) × (u : State ops fs roots) × (path ≢ "")
          × (world ops fs roots (fs.read_file path) s ≡ (ok data_, t))
          × (write_secret ops roots.internal (join_strings (target ∷ fs.base path ∷ [])) data_ t
              ≡ (ok tt, u))
          × Copies paths u s')

  -- No path that is not empty has the given file name.
  abbrev Avoids : String → List String → Type 0
  Avoids name = All (λ (path : String). (path ≡ "") ⊎ (name ≢ fs.base path))

  -- Of the paths that are not empty no two have the same file name.
  unfoldable pub AreSeparate : List String → Type 0
  AreSeparate [] = Unit
  AreSeparate (path ∷ paths) = ((path ≡ "") ⊎ Avoids (fs.base path) paths) × AreSeparate paths

  copy_files-cons :
      (path : String) (paths : List String) (names names' : Names) (s s' : State ops fs roots)
      → copy_files ops fs roots target (path ∷ paths) names s ≡ (ok names', s')
      → (between : Names) × (t : State ops fs roots) × (copy_one ops fs roots target path names s
          ≡ (ok between, t))
        × (copy_files ops fs roots target paths between t ≡ (ok names', s'))
  unfolding copy_files
  copy_files-cons path paths names names' s s' h =
      elim (Result-cases (copy_one ops fs roots target path names s).0) [
        | inl (between, e) ↦ (
          between,
          (copy_one ops fs roots target path names s).1,
          cc e,
          rw (e, continue_with) at h,
        )
        | inr (x, e) ↦ absurd (
            cc (
              ap (λ (p : Result CaError Names × State ops fs roots). p.0)
                (rw (e, continue_with) at h)))
      ]

  copy_files-keeps :
      (paths : List String) (name source : String) (names names' : Names)
      (s s' : State ops fs roots)
      → copy_files ops fs roots target paths names s ≡ (ok names', s')
      → lookup name names ≡ some source
      → lookup name names' ≡ some source
  unfolding copy_files
  copy_files-keeps [] name source names names' s s' h l =
      rw (ok-injective (ap (λ (p : Result CaError Names × State ops fs roots). p.0) h)) at l
  copy_files-keeps (path ∷ paths) name source names names' s s' h l =
      let (between, t, first, rest) = copy_files-cons path paths names names' s s' h in
      copy_files-keeps paths name source between names' t s' rest
        (copy_one-keeps ops fs roots target path name source names between s t first l)

  copy_files-Avoids :
      (paths : List String) (name source : String) (names names' : Names)
      (s s' : State ops fs roots)
      → copy_files ops fs roots target paths names s ≡ (ok names', s')
      → lookup name names ≡ some source
      → Avoids name paths
  copy_files-Avoids [] name source names names' s s' h l = tt
  copy_files-Avoids (path ∷ paths) name source names names' s s' h l =
      let (between, t, first, rest) = copy_files-cons path paths names names' s s' h in
      (
        elim (copy_one-result ops fs roots target path names between s t first) [
          | inl (e, _) ↦ inl e
          | inr (fresh, _) ↦ inr (λ same. cc (rw same at l, fresh))
        ],
        copy_files-Avoids paths name source between names' t s' rest
            (copy_one-keeps ops fs roots target path name source names between s t first l),
      )

  -- When the copying of certificates succeeds, all that was done is that the data of each path that is not
  -- empty was read and written in the directory under the file name of the path, in the order of the list;
  -- and no two of these paths have the same file name, so that none was written over another.
  pub copy_files-Copies :
      (paths : List String) (names names' : Names) (s s' : State ops fs roots)
      → copy_files ops fs roots target paths names s ≡ (ok names', s')
      → Copies paths s s' × AreSeparate paths
  unfolding copy_files Copies AreSeparate
  copy_files-Copies [] names names' s s' h =
      (ap (λ (p : Result CaError Names × State ops fs roots). p.1) h, tt)
  copy_files-Copies (path ∷ paths) names names' s s' h =
      let (between, t, first, rest) = copy_files-cons path paths names names' s s' h in
      let (copies, separate) = copy_files-Copies paths between names' t s' rest in
      (
        elim (copy_one-effect ops fs roots target path names between s t first) [
          | inl (e, same) ↦ inl (e, rw same copies)
          | inr (data_, u, n, reads, writes) ↦ inr (data_, u, t, n, reads, writes, copies)
        ],
        (
          elim (copy_one-result ops fs roots target path names between s t first) [
            | inl (e, _) ↦ inl e
            | inr (fresh, same) ↦ inr (
                copy_files-Avoids paths (fs.base path) path between names' t s' rest (
                  rw (← same) (
                    rw (lookup-insert (fs.base path) (fs.base path) path names)
                      (rw (beq_refl (fs.base path)) refl))))
          ],
          separate,
        ),
      )
