-- ===== src/Postgresql/Connection/Sessions.antt =====
-- How the wait for PostgreSQL comes to its end.
use zabbix_docker.Base.{
  ℕ, ◌+◌, ◌*◌, ◌≤◌, ◌<◌, String, ◌≡◌, refl, ◌∙◌, inl, inr, true, none, some, List, [], ◌∷◌, arith,
  Option-cases, nat_eq, char_eq, string_eq, list_eq, Result, ok, err, Result-cases, is_some, length,
}
use zabbix_docker.Bootstrap.Retry.{Failure, retry, as_stop}
use zabbix_docker.Bootstrap.Retry.Results.{retry_success}
use zabbix_docker.Bootstrap.Retry.Unlimited.{retry_until, Advances}
use zabbix_docker.Postgresql.Database.{Db}
use zabbix_docker.Postgresql.Connection.{
  DbError, DbSession, ConnConfig, PostgresError, Client, Shared, conn_config, connect, try_names,
  attempt, options, ctx_err_with, waited, wait_for_connection,
}

module _ {W Target : Type 0} (client : Client W Target) (db : Db) (user password : String) where
  abbrev HasSession : Shared client db → Type 0
  HasSession (w, sess) = is_some sess ≡ true

  try_names-HasSession :
      (names : List String) (last : Failure PostgresError) (s : Shared client db)
      → (try_names client db user password names (err last) s).0 ≡ ok tt
      → HasSession (try_names client db user password names (err last) s).1
  unfolding try_names
  try_names-HasSession [] last s h = cc
  try_names-HasSession (name ∷ names) last (w, before) h =
      elim (Result-cases (connect client db name user password w).0) [
        | inl (session, e) ↦ rw (e, try_names)
        | inr (x, e) ↦
            rw (e, try_names)
              (try_names-HasSession names x ((connect client db name user password w).1, before)
                (rw (e, try_names) at h))
      ]

  -- With a name at least, it does not matter what stood before the loop.
  first-HasSession :
      (name : String) (names : List String) (last : Result (Failure PostgresError) (Unit {0}))
      (s : Shared client db)
      → (try_names client db user password (name ∷ names) last s).0 ≡ ok tt
      → HasSession (try_names client db user password (name ∷ names) last s).1
  unfolding try_names
  first-HasSession name names last (w, before) h =
      elim (Result-cases (connect client db name user password w).0) [
        | inl (session, e) ↦ rw (e, try_names)
        | inr (x, e) ↦
            rw (e, try_names)
              (try_names-HasSession names x ((connect client db name user password w).1, before)
                (rw (e, try_names) at h))
      ]

  attempt-HasSession :
      (s : Shared client db)
      → (attempt client db user password s).0 ≡ ok tt
      → HasSession (attempt client db user password s).1
  unfolding attempt
  attempt-HasSession s h = first-HasSession user (db.name ∷ []) (ok tt) s h

  wait_for_connection-eq :
      (fuel : ℕ) (w : W) (r : Result (Failure PostgresError) (Unit {0})) (s : Shared client db)
      → retry
          (options client db)
          (attempt client db user password)
          (ctx_err_with client db)
          fuel
          (w, none)
        ≡ some (r, s)
      → wait_for_connection client db fuel user password w ≡ some (waited client db r s.1, s.0)
  unfolding wait_for_connection
  wait_for_connection-eq fuel w r s e = rw (e, wait_for_connection)

  module _ (patience : W → ℕ) (wait_ok : (w : W) → (client.retry_wait w).0 ≡ ok tt)
      (running : (w : W) → client.ctx_err w ≡ none)
      (wait_keeps : (w : W) → patience (client.retry_wait w).1 ≤ patience w)
      (accepts : (name : String)
        → (config : ConnConfig Target) × (conn_config client db name user password ≡ ok config))
      (open_fails : (timeout : ℕ) (config : ConnConfig Target) (w : W) (e : DbError)
        → (client.open_session timeout config w).0 ≡ err e
        → patience (client.open_session timeout config w).1 < patience w) where
    -- A connection that fails may be tried again, and is nearer to the first success.
    abbrev Lowers : W → Result (Failure PostgresError) (DbSession W) → W → Type 0
    Lowers w (ok _) w' = Unit
    Lowers w (err x) w' = (as_stop x ≡ none) × (patience w' < patience w)

    connect-Lowers :
        (name : String) (w : W)
        → Lowers w
            (connect client db name user password w).0
            (connect client db name user password w).1
    unfolding connect as_stop
    connect-Lowers name w =
        let (config, e) = accepts name in
        let timeout = length db.endpoints * config.connect_timeout + 1 in
        elim (Result-cases (client.open_session timeout config w).0) [
          | inl (session, f) ↦ rw (e, connect, f, Lowers) tt
          | inr (y, f) ↦ rw (e, connect, f, Lowers) (refl, open_fails timeout config w y f)
        ]

    attempt-Advances :
        (s : Shared client db)
        → Advances
            (options client db)
            (attempt client db user password)
            (ctx_err_with client db)
            (λ (s : Shared client db). patience s.0)
            s
            (attempt client db user password s).0
            (attempt client db user password s).1
    unfolding attempt try_names
    attempt-Advances (w, before) = elim (Result-cases (connect client db user user password w).0) [
      | inl (session, e) ↦ rw (e, try_names) tt
      | inr (x, e) ↦
          let first : Lowers w (err x) (connect client db user user password w).1 =
            rw e at (connect-Lowers user w) in
          let between = (connect client db user user password w).1 in
          elim (Result-cases (connect client db db.name user password between).0) [
            | inl (session, f) ↦ rw (e, f, try_names) tt
            | inr (y, f) ↦
                let second : Lowers between (err y)
                    (connect client db db.name user password between).1 =
                  rw f at (connect-Lowers db.name between) in
                rw (e, f, try_names) (second.0, omega (arith, first.1, second.1))
          ]
    ]

    -- Waiting for PostgreSQL comes to an end with an open session, when the waits succeed, the context stays
    -- open, pgx accepts the parameters of the connection and every failure to open a session lowers a measure
    -- of the world, which the waits do not raise: fuel above the measure is enough.
    pub wait_for_connection-until :
        (fuel : ℕ) (w : W)
        → patience w < fuel
        → (session : DbSession W) × (w' : W) × (wait_for_connection client db fuel user password w
            ≡ some (ok (some session), w'))
    wait_for_connection-until fuel w n =
        let (s, e) =
          retry_until (options client db) (attempt client db user password) (ctx_err_with client db)
            (λ (s : Shared client db). patience s.0) refl (λ s. wait_ok s.0) (λ s. running s.0)
            attempt-Advances (λ s. wait_keeps s.0) (λ last s. omega arith) fuel (w, none) n in
        let has : is_some s.1 ≡ true =
          retry_success (options client db) (attempt client db user password)
            (ctx_err_with client db) HasSession attempt-HasSession 0 fuel (w, none) s refl e in
        elim (Option-cases s.1) [
          | inl empty ↦ cc (rw empty at has)
          | inr (session, found) ↦
              (session, s.0, wait_for_connection-eq fuel w (ok tt) s e ∙ rw found)
        ]
