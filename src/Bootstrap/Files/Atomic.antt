-- ===== src/Bootstrap/Files/Atomic.antt =====
-- The content of a file whose replacement fails.
use zabbix_docker.Base.{
  ℕ, String, ◌<>◌, ◌≡◌, sym, ap, ◌∙◌, ◌≢◌, inl, inr, nat_eq, char_eq, string_eq, list_eq, Result,
  ok, err, Result-cases, Text,
}
use zabbix_docker.Base.Exec.{Exec, ◌>>=◌, continue_with}
use zabbix_docker.Bootstrap.Os.{OsError}
use zabbix_docker.Bootstrap.Files.{FileOps, deferred, discard, fill, write_file_preserving_mode}

module _ {W : Type 0} (os : FileOps W) (target : String) (content : W → Text) where
  -- What is relied on of the system for the content of the file `target`: only a write to it, its removal
  -- and a rename that succeeds may change it. A temporary file is a new one.
  pub record IsApart : Type 0 where
    pub eval_symlinks_keeps :
        (path : String) (w : W) → content (os.eval_symlinks path w).1 ≡ content w
    pub stat_keeps : (path : String) (w : W) → content (os.stat_mode path w).1 ≡ content w
    pub create_temp_keeps :
        (dir pattern : String) (w : W) → content (os.create_temp dir pattern w).1 ≡ content w
    pub chmod_keeps :
        (path : String) (mode : ℕ) (w : W) → content (os.chmod path mode w).1 ≡ content w
    pub write_keeps :
        (path : String) (data_ : Text) (w : W)
        → path ≢ target
        → content (os.write path data_ w).1 ≡ content w
    pub sync_keeps : (path : String) (w : W) → content (os.sync path w).1 ≡ content w
    pub close_keeps : (path : String) (w : W) → content (os.close path w).1 ≡ content w
    pub create_temp_fresh :
        (dir pattern temporary : String) (w : W)
        → (os.create_temp dir pattern w).0 ≡ ok temporary
        → temporary ≢ target
    pub remove_keeps :
        (path : String) (w : W) → path ≢ target → content (os.remove path w).1 ≡ content w
    pub rename_fails :
        (from to : String) (w w' : W) (e : OsError)
        → os.rename from to w ≡ (err e, w')
        → content w' ≡ content w

  abbrev KeepsOnError : {A : Type 0} → Exec W OsError A → Type 0
  KeepsOnError m = (w w' : W) (e : OsError) → m w ≡ (err e, w') → content w' ≡ content w

  KeepsOnError-bind :
      {A B : Type 0} (m : Exec W OsError A) (f : A → Exec W OsError B)
      → ((w : W) → content (m w).1 ≡ content w)
      → ((a : A) (v : W) → (m v).0 ≡ ok a → KeepsOnError (f a))
      → KeepsOnError (m >>= f)
  KeepsOnError-bind {A} {B} m f keeps rest w w' e h = elim (Result-cases (m w).0) [
    | inl (a, q) ↦ rest a w q (m w).1 w' e (rw (q, continue_with) at h) ∙ keeps w
    | inr (_, q) ↦
        sym (ap (λ (p : Result OsError B × W). content p.1) (rw (q, continue_with) at h)) ∙ keeps w
  ]

  discard-keeps :
      (laws : IsApart) (temporary : String)
      → temporary ≢ target
      → (w : W) → content (discard os temporary w) ≡ content w
  discard-keeps laws temporary other w =
      laws.remove_keeps temporary (os.close temporary w).1 other ∙ laws.close_keeps temporary w

  KeepsOnError-deferred :
      {A : Type 0} (f : W → W) (m : Exec W OsError A)
      → ((w : W) → content (f w) ≡ content w)
      → KeepsOnError m
      → KeepsOnError (deferred f m)
  KeepsOnError-deferred {A} f m keeps rest w w' e h =
      sym (ap (λ (p : Result OsError A × W). content p.1) h)
      ∙ keeps (m w).1
      ∙ rest w (m w).1 e (ap (λ (p : Result OsError A × W). (p.0, (m w).1)) h)

  fill-KeepsOnError :
      (laws : IsApart) (resolved_path temporary : String) (mode : ℕ) (data_ : Text)
      → temporary ≢ target
      → KeepsOnError (fill os resolved_path temporary mode data_)
  unfolding fill
  fill-KeepsOnError laws resolved_path temporary mode data_ other =
      let rename = λ (x : Unit {0}). os.rename temporary resolved_path in
      let close = λ (x : Unit {0}). os.close temporary >>= rename in
      let sync = λ (x : Unit {0}). os.sync temporary >>= close in
      let write = λ (x : Unit {0}). os.write temporary data_ >>= sync in
      KeepsOnError-bind (os.chmod temporary mode) write (laws.chmod_keeps temporary mode) (λ _ _ _.
        KeepsOnError-bind (os.write temporary data_) sync
          (λ w. laws.write_keeps temporary data_ w other)
          (λ _ _ _.
            KeepsOnError-bind (os.sync temporary) close (laws.sync_keeps temporary) (λ _ _ _.
              KeepsOnError-bind (os.close temporary) rename (laws.close_keeps temporary)
                (λ _ _ _. laws.rename_fails temporary resolved_path))))

  -- If the replacement of a file returns an error, the content of the file is the one it had.
  pub write_file_preserving_mode-keeps :
      (path : String) (data_ : Text) (w w' : W) (e : OsError)
      → IsApart
      → write_file_preserving_mode os path data_ w ≡ (err e, w')
      → content w' ≡ content w
  unfolding write_file_preserving_mode
  write_file_preserving_mode-keeps path data_ w w' e laws h =
      let pattern = λ (resolved_path : String). "." <> os.base resolved_path <> ".tmp-*" in
      let replace = λ (resolved_path : String) (mode : ℕ) (temporary : String).
        deferred (discard os temporary) (fill os resolved_path temporary mode data_) in
      let create = λ (resolved_path : String) (mode : ℕ).
        os.create_temp (os.dir resolved_path) (pattern resolved_path)
        >>= replace resolved_path mode in
      let open_ = λ (resolved_path : String). os.stat_mode resolved_path >>= create resolved_path in
      KeepsOnError-bind (os.eval_symlinks path) open_ (laws.eval_symlinks_keeps path)
        (λ resolved_path _ _.
          KeepsOnError-bind (os.stat_mode resolved_path) (create resolved_path)
            (laws.stat_keeps resolved_path)
            (λ mode _ _.
              KeepsOnError-bind (os.create_temp (os.dir resolved_path) (pattern resolved_path))
                (replace resolved_path mode)
                (laws.create_temp_keeps (os.dir resolved_path) (pattern resolved_path))
                (λ temporary v made.
                  KeepsOnError-deferred (discard os temporary)
                    (fill os resolved_path temporary mode data_)
                    (discard-keeps laws temporary (
                      laws.create_temp_fresh (os.dir resolved_path) (pattern resolved_path)
                        temporary v made))
                    (fill-KeepsOnError laws resolved_path temporary mode data_ (
                      laws.create_temp_fresh (os.dir resolved_path) (pattern resolved_path)
                        temporary v made)))))
        w w' e h
