-- ===== src/Vault/Request/Limits.antt =====
-- `vaultClient.request`: how often it sends, and how large a reply may be.
use zabbix_docker.Base.{
  ℕ, ◌+◌, ◌≤◌, ◌≡◌, refl, inl, inr, some, [], arith, ltb, Bool-cases, nat_eq, char_eq, string_eq,
  list_eq, Result, ok, err, Result-cases, length,
}
use zabbix_docker.Bootstrap.Os.{OsError}
use zabbix_docker.Bootstrap.Retry.{Failure, retry}
use zabbix_docker.Bootstrap.Retry.Bounds.{retry_calls}
use zabbix_docker.Bootstrap.Retry.Results.{retry_success}
use zabbix_docker.Vault.{VaultError, Bytes}
use zabbix_docker.Vault.Tls.{TlsConfig}
use zabbix_docker.Vault.Request.{
  Request, Http, max_attempts, max_resp_size, check_size, read_vault_response, judge, attempt,
  options, ctx_err_with, received, request,
}

-- A body that may be used: an error, or no more than the limit.
abbrev pub Fits {ℓ} : {E : Type ℓ} → Result E Bytes → Type 0
Fits (err e) = Unit
Fits (ok data_) = length data_ ≤ max_resp_size

check_size-Fits : (r : Result OsError Bytes) → Fits (check_size r)
unfolding check_size
check_size-Fits (err e) = tt
check_size-Fits (ok data_) = elim (Bool-cases (ltb max_resp_size (length data_))) [
  | inl h ↦ rw h tt
  | inr h ↦ rw h (ground arith)
]

module _ {W Pool Cert Reader : Type 0} (http : Http W Pool Cert Reader)
    (config : TlsConfig Pool Cert) (req : Request) where
  judge-Fits :
      (status : ℕ) (read : Result VaultError Bytes) (before : Bytes)
      → Fits read
      → (judge http config status read before).0 ≡ ok tt
      → length (judge http config status read before).1 ≤ max_resp_size
  unfolding judge
  judge-Fits status (err e) before f h = ground arith
  judge-Fits status (ok data_) before f h = ground arith

  attempt-Fits :
      (s : W × Bytes)
      → (attempt http config req s).0 ≡ ok tt
      → length (attempt http config req s).1.1 ≤ max_resp_size
  unfolding attempt read_vault_response
  attempt-Fits (w, before) h = elim (Result-cases (http.new_request req.method req.url)) [
    | inr (x, e) ↦ ground arith
    | inl (_, e) ↦ elim (Result-cases (http.send config req w).0) [
      | inr (x, f) ↦ ground arith
      | inl (resp, f) ↦ ground (
        arith,
        judge-Fits resp.status_code
            (check_size (http.read_all resp.body (max_resp_size + 1) (http.send config req w).1).0)
            before (check_size-Fits _),
      )
    ]
  ]

  request-eq :
      (w : W) (r : Result (Failure VaultError) (Unit {0})) (s : W × Bytes)
      → retry
          (options http config)
          (attempt http config req)
          (ctx_err_with http config)
          (max_attempts + 1)
          (w, [])
        ≡ some (r, s)
      → request http config req w ≡ some (received http config r s.1, s.0)
  unfolding request
  request-eq w r s e = rw (e, request)

  module _ (sends : W → ℕ) (send_counts : (w : W) → sends (http.send config req w).1 ≤ sends w + 1)
      (read_counts : (body : Reader) (n : ℕ) (w : W) → sends (http.read_all body n w).1 ≤ sends w)
      (close_counts : (body : Reader) (w : W) → sends (http.close body w) ≤ sends w)
      (wait_counts : (w : W) → sends (http.wait w).1 ≤ sends w) where
    attempt-sends : (s : W × Bytes) → sends (attempt http config req s).1.0 ≤ sends s.0 + 1
    unfolding attempt read_vault_response
    attempt-sends (w, before) = elim (Result-cases (http.new_request req.method req.url)) [
      | inr (x, e) ↦ ground arith
      | inl (_, e) ↦ elim (Result-cases (http.send config req w).0) [
        | inr (x, f) ↦ ground (arith, send_counts w)
        | inl (resp, f) ↦ ground (
          arith,
          send_counts w,
          read_counts resp.body (max_resp_size + 1) (http.send config req w).1,
          close_counts resp.body
              (http.read_all resp.body (max_resp_size + 1) (http.send config req w).1).1,
        )
      ]
    ]

    received-Fits :
        (r : Result (Failure VaultError) (Unit {0})) (data_ : Bytes)
        → (r ≡ ok tt → length data_ ≤ max_resp_size)
        → Fits (received http config r data_)
    received-Fits (err e) data_ h = tt
    received-Fits (ok _) data_ h = h refl

    -- A request ends: it is sent three times at most, and gives an error or a body of no more than
    -- 1048576 bytes. The counter `sends` grows by at most one with `http.Client.Do`, and not with the
    -- reading and closing of a body or a wait.
    pub request-Fits :
        (w : W)
        → (r : Result (Failure VaultError) Bytes) × (w' : W) × (request http config req w
            ≡ some (r, w'))
          × (sends w' ≤ sends w + max_attempts)
          × Fits r
    request-Fits w =
        let (r, s, e, n) =
          retry_calls (options http config) (attempt http config req) (ctx_err_with http config)
            (λ (s : W × Bytes). sends s.0) attempt-sends (λ s. wait_counts s.0)
            (λ last s. omega arith) (w, []) refl in
        let small : r ≡ ok tt → length s.1 ≤ max_resp_size = λ h.
          retry_success (options http config) (attempt http config req) (ctx_err_with http config)
            (λ (s : W × Bytes). length s.1 ≤ max_resp_size) attempt-Fits max_attempts
            (max_attempts + 1) (w, []) s refl (rw h at e) in
        (received http config r s.1, s.0, request-eq w r s e, n, received-Fits r s.1 small)
