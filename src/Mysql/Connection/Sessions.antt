-- ===== src/Mysql/Connection/Sessions.antt =====
-- The session that the wait for MySQL gives.
use zabbix_docker.Base.{
  ℕ, ◌≤◌, ◌<◌, ◌≡◌, refl, ◌∙◌, inl, inr, true, Option, none, some, arith, Option-cases, nat_eq,
  char_eq, string_eq, list_eq, Result, ok, err, Result-cases, is_some,
}
use zabbix_docker.Bootstrap.Retry.{Failure, retry, as_stop}
use zabbix_docker.Bootstrap.Retry.Results.{retry_success}
use zabbix_docker.Bootstrap.Retry.Unlimited.{retry_until, Advances}
use zabbix_docker.Mysql.Database.{Db}
use zabbix_docker.Mysql.Connection.{
  DbError, DbSession, MysqlConfig, MysqlError, Client, Shared, attempt, after_open, after_ping,
  options, ctx_err_with, waited, connect_on_fuel,
}

-- What an attempt to connect does to the distance from the first success: a session that answers the ping,
-- or a failure that is nearer to it. The distance is of the world alone.
module _ {W Pool Cert : Type 0} (client : Client W Pool Cert) (db : Db)
    (config : MysqlConfig Pool Cert) where
  abbrev HasSession : Shared client db → Type 0
  HasSession (w, sess) = is_some sess ≡ true

  after_ping-HasSession :
      (session : DbSession W) (before : Option (DbSession W)) (r : Result DbError (Unit {0}))
      (w : W)
      → (after_ping client db session before (r, w)).0 ≡ ok tt
      → HasSession (after_ping client db session before (r, w)).1
  after_ping-HasSession session before (ok _) w h = refl
  after_ping-HasSession session before (err e) w h = cc

  after_open-HasSession :
      (before : Option (DbSession W)) (r : Result DbError (DbSession W)) (w : W)
      → (after_open client db before (r, w)).0 ≡ ok tt
      → HasSession (after_open client db before (r, w)).1
  after_open-HasSession before (err e) w h = cc
  after_open-HasSession before (ok session) w h =
      after_ping-HasSession session before (session.ping w).0 (session.ping w).1 h

  attempt-HasSession :
      (s : Shared client db)
      → (attempt client db config s).0 ≡ ok tt
      → HasSession (attempt client db config s).1
  unfolding attempt
  attempt-HasSession (w, before) h =
      after_open-HasSession before (client.open_session config w).0 (client.open_session config w).1
        h

  connect_on_fuel-eq :
      (fuel : ℕ) (w : W) (r : Result (Failure MysqlError) (Unit {0})) (s : Shared client db)
      → retry (options client db) (attempt client db config) (ctx_err_with client db) fuel (w, none)
        ≡ some (r, s)
      → connect_on_fuel client db fuel config w ≡ some (waited client db r s.1, s.0)
  unfolding connect_on_fuel
  connect_on_fuel-eq fuel w r s e = rw (e, connect_on_fuel)

  module _ (patience : W → ℕ) (wait_ok : (w : W) → (client.retry_wait w).0 ≡ ok tt)
      (running : (w : W) → client.ctx_err w ≡ none)
      (wait_keeps : (w : W) → patience (client.retry_wait w).1 ≤ patience w)
      (open_fails : (w : W) (e : DbError)
        → (client.open_session config w).0 ≡ err e
        → patience (client.open_session config w).1 < patience w)
      (ping_fails : (w : W) (session : DbSession W) (e : DbError)
        → (client.open_session config w).0 ≡ ok session
        → (session.ping (client.open_session config w).1).0 ≡ err e
        → patience (session.close (session.ping (client.open_session config w).1).1).1
          < patience w) where
    attempt-Advances :
        (s : Shared client db)
        → Advances
            (options client db)
            (attempt client db config)
            (ctx_err_with client db)
            (λ (s : Shared client db). patience s.0)
            s
            (attempt client db config s).0
            (attempt client db config s).1
    unfolding attempt as_stop
    attempt-Advances (w, before) = elim (Result-cases (client.open_session config w).0) [
      | inr (e, h) ↦ rw h (refl, open_fails w e h)
      | inl (session, h) ↦ elim (Result-cases (session.ping (client.open_session config w).1).0) [
        | inl (_, g) ↦ rw h (rw g tt)
        | inr (e, g) ↦ rw h (rw g (refl, ping_fails w session e h g))
      ]
    ]

    -- Waiting for MySQL comes to an end with an open session, when the waits succeed, the context stays open
    -- and every failure of open or ping lowers a measure of the world, which the waits do not raise: fuel
    -- above the measure is enough.
    pub connect_on_fuel-until :
        (fuel : ℕ) (w : W)
        → patience w < fuel
        → (session : DbSession W) × (w' : W) × (connect_on_fuel client db fuel config w
            ≡ some (ok (some session), w'))
    connect_on_fuel-until fuel w n =
        let (s, e) =
          retry_until (options client db) (attempt client db config) (ctx_err_with client db)
            (λ (s : Shared client db). patience s.0) refl (λ s. wait_ok s.0) (λ s. running s.0)
            attempt-Advances (λ s. wait_keeps s.0) (λ last s. omega arith) fuel (w, none) n in
        let has : is_some s.1 ≡ true =
          retry_success (options client db) (attempt client db config) (ctx_err_with client db)
            HasSession attempt-HasSession 0 fuel (w, none) s refl e in
        elim (Option-cases s.1) [
          | inl empty ↦ cc (rw empty at has)
          | inr (session, found) ↦ (session, s.0, connect_on_fuel-eq fuel w (ok tt) s e ∙ rw found)
        ]
