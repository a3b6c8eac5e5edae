-- ===== src/Postgresql/Endpoints/Parsed.antt =====
-- The endpoints that a list of hosts gives.
use zabbix_docker.Base.{
  ℕ, suc, ◌+◌, Char, ◌≡◌, refl, ap, ◌∙◌, ◌≢◌, ◌⊎◌, inl, inr, true, false, Option, none, some, List,
  [], ◌∷◌, arith, Bool-cases, Option-cases, ◌==◌, nat_eq, char_eq, string_eq, list_eq, ok,
  Result-cases, ok-injective, length, is_empty, All, Text, chars, is_code, trim_space, cut_prefix,
  is_some, cons_head, split_on, cut, count_code,
}
use zabbix_docker.Base.Decimal.{parse_uint16}
use zabbix_docker.Postgresql.Endpoints.{
  Endpoint, checked_port, after_bracket, bracketed, host_and_port, validate_port, parse_endpoint,
  parse_parts, parse_endpoints,
}

-- An endpoint has a host, and its port is the default one or a number below 65536.
abbrev pub IsEndpoint : Text → Endpoint → Type 0
IsEndpoint default_port e =
    (is_empty e.host ≡ false) × ((e.port ≡ default_port) ⊎ (is_some (parse_uint16 e.port) ≡ true))

module _ (default_port : Text) where
  checked_port-IsEndpoint :
      (host port : Text) (e : Endpoint)
      → is_empty host ≡ false
      → checked_port host port ≡ ok e
      → IsEndpoint default_port e
  unfolding validate_port
  checked_port-IsEndpoint host port e n h = elim (Bool-cases (is_empty port)) [
    | inl p ↦ cc (rw (p, validate_port) at h)
    | inr p ↦ elim (Bool-cases (is_some (parse_uint16 port))) [
      | inr v ↦ cc (rw (p, v, validate_port) at h)
      | inl v ↦
          let same : (record { host = host; port = port }) ≡ e =
            ok-injective (rw (p, v, validate_port) at h) in
          rw (← same) (n, inr v)
    ]
  ]

  after_bracket-IsEndpoint :
      (host suffix : Text) (e : Endpoint)
      → is_empty host ≡ false
      → after_bracket default_port host suffix ≡ ok e
      → IsEndpoint default_port e
  after_bracket-IsEndpoint host [] e n h = rw (← ok-injective h) (n, inl refl)
  after_bracket-IsEndpoint host (c ∷ suffix) e n h = elim (Bool-cases (is_code b':' c)) [
    | inl p ↦ checked_port-IsEndpoint host (trim_space suffix) e n (rw p at h)
    | inr p ↦ cc (rw p at h)
  ]

  bracketed-IsEndpoint :
      (parts : Option (Text × Text)) (e : Endpoint)
      → bracketed default_port parts ≡ ok e
      → IsEndpoint default_port e
  bracketed-IsEndpoint none e h = cc
  bracketed-IsEndpoint (some (inside, rest)) e h =
      elim (Bool-cases (is_empty (trim_space inside))) [
        | inl p ↦ cc (rw p at h)
        | inr p ↦ after_bracket-IsEndpoint (trim_space inside) (trim_space rest) e p (rw p at h)
      ]

  host_and_port-IsEndpoint :
      (parts : Option (Text × Text)) (e : Endpoint)
      → host_and_port parts ≡ ok e
      → IsEndpoint default_port e
  host_and_port-IsEndpoint none e h = cc
  host_and_port-IsEndpoint (some (host, port)) e h =
      elim (Bool-cases (is_empty (trim_space host))) [
        | inl p ↦ cc (rw p at h)
        | inr p ↦ checked_port-IsEndpoint (trim_space host) (trim_space port) e p (rw p at h)
      ]

  parse_endpoint-IsEndpoint :
      (value : Text) (e : Endpoint)
      → is_empty value ≡ false
      → parse_endpoint value default_port ≡ ok e
      → IsEndpoint default_port e
  unfolding parse_endpoint
  parse_endpoint-IsEndpoint value e n h = elim (Option-cases (cut_prefix value (chars "["))) [
    | inr (s, p) ↦ bracketed-IsEndpoint (cut b']' s) e (rw (p, parse_endpoint) at h)
    | inl p ↦ elim (Bool-cases (count_code b':' value == 1)) [
      | inl c ↦ host_and_port-IsEndpoint (cut b':' value) e (rw c at (rw (p, parse_endpoint) at h))
      | inr c ↦
          let same : (record { host = value; port = default_port }) ≡ e =
            ok-injective (rw c at (rw (p, parse_endpoint) at h)) in
          rw (← same) (n, inl refl)
    ]
  ]

  parse_parts-IsEndpoint :
      (i : ℕ) (parts : List Text) (es : List Endpoint)
      → parse_parts default_port i parts ≡ ok es
      → (length es ≡ length parts) × All (IsEndpoint default_port) es
  unfolding parse_parts
  parse_parts-IsEndpoint i [] es h = rw (← ok-injective h) (refl, tt)
  parse_parts-IsEndpoint i (raw ∷ parts) es h = elim (Bool-cases (is_empty (trim_space raw))) [
    | inl p ↦ cc (rw (p, parse_parts) at h)
    | inr p ↦ elim (Result-cases (parse_endpoint (trim_space raw) default_port)) [
      | inr (_, q) ↦ cc (rw q at (rw (p, parse_parts) at h))
      | inl (e, q) ↦ elim (Result-cases (parse_parts default_port (i + 1) parts)) [
        | inr (_, r) ↦ cc (rw (q, r) at (rw (p, parse_parts) at h))
        | inl (rest, r) ↦
            let same : (e ∷ rest) ≡ es = ok-injective (rw (q, r) at (rw (p, parse_parts) at h)) in
            let (n, a) = parse_parts-IsEndpoint (i + 1) parts rest r in
            rw (← same) (ap suc n, (parse_endpoint-IsEndpoint (trim_space raw) e p q, a))
      ]
    ]
  ]

length-cons_head :
    (c : Char) (parts : List Text) → length parts ≢ 0 → length (cons_head c parts) ≡ length parts
length-cons_head c [] h = absurd (omega arith)
length-cons_head c (p ∷ parts) h = refl

length-split_on : (sep : ℕ) (s : Text) → length (split_on sep s) ≡ count_code sep s + 1
unfolding split_on count_code
length-split_on sep [] = refl
length-split_on sep (c ∷ s) = elim (Bool-cases (is_code sep c)) [
  | inl p ↦ rw (p, split_on) (omega (arith, length-split_on sep s))
  | inr p ↦
      rw (p, split_on)
        (rw (length-cons_head c (split_on sep s) (omega (arith, length-split_on sep s)))
          (omega (arith, length-split_on sep s)))
]

-- A list of hosts that is accepted gives one endpoint for each part between two commas; every endpoint has
-- a host that is not empty, and a port that is the default one or a number below 65536.
pub parse_endpoints-IsEndpoint :
    (hosts default_port : Text) (es : List Endpoint)
    → is_empty hosts ≡ false
    → parse_endpoints hosts default_port ≡ ok es
    → (length es ≡ count_code b',' hosts + 1) × All (IsEndpoint default_port) es
unfolding parse_endpoints
parse_endpoints-IsEndpoint hosts default_port es n h =
    let (same, a) =
      parse_parts-IsEndpoint default_port 0 (split_on b',' hosts) es
        (rw (n, parse_endpoints) at h) in
    (same ∙ length-split_on b',' hosts, a)
