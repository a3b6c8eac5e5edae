-- ===== src/Storageprovider/Configuration/Caching.antt =====
-- `ConfigsToPrepare` beside the decoding of every provider anew.
use zabbix_docker.Base.{
  String, ◌<>◌, ◌≡◌, refl, ap, ◌∙◌, inl, inr, not, some, List, [], ◌∷◌, Bool-cases, Option-cases,
  if◌then◌else◌, ◌==◌, nat_eq, char_eq, string_eq, list_eq, Result, ok, err, Result-cases, is_empty,
  Text, chars, trim_space,
}
use mathlib.Core.Option.{some-injective}
use zabbix_docker.Base.Dict.{Dict, lookup, insert, lookup-insert}
use zabbix_docker.Bootstrap.Os.{OsError}
use zabbix_docker.Bootstrap.Environment.{Environment, get}
use zabbix_docker.Storageprovider.Fields.{
  Value, StorageError, provider_required, looks_like_json_object,
}
use zabbix_docker.Storageprovider.Indexed.{schema_suffix}
use zabbix_docker.Storageprovider.Families.{Parameter}
use zabbix_docker.Storageprovider.Parameter.{ProviderConfig, decode}
use zabbix_docker.Storageprovider.Configuration.{
  Configuration, decode_cached, prepare_from, configs_to_prepare,
}

module _ {N : Type 0} (unmarshal : Text → Result OsError (Value N)) (param : Parameter N)
    (env : Environment) where
  -- A provider without the cache.
  unfoldable pub decode_anew : String → Result StorageError (ProviderConfig N)
  decode_anew name = elim (decode unmarshal param env name) [
    | err e ↦ err e
    | ok config ↦ ok (record config { schema_options = get env (name <> schema_suffix) })
  ]

  -- The providers with a schema, without the cache.
  unfoldable pub decode_all : List String → Result StorageError (List (ProviderConfig N))
  decode_all [] = ok []
  decode_all (name ∷ names) =
      if is_empty (trim_space (chars (get env (name <> schema_suffix))))
      then decode_all names
      else if not (looks_like_json_object (get env name))
      then err (provider_required (name <> schema_suffix))
      else (elim (decode_anew name) [
        | err e ↦ err e
        | ok config ↦ elim (decode_all names) [ err e ↦ err e | ok configs ↦ ok (config ∷ configs) ]
      ])

  -- Whatever the cache holds is what decoding gives.
  unfoldable pub IsCached : Dict String (ProviderConfig N) → Type 0
  IsCached cache =
      (name : String) (config : ProviderConfig N)
      → lookup name cache ≡ some config
      → decode_anew name ≡ ok config

  -- The configuration is that of the environment, with a cache that holds what decoding gives.
  unfoldable pub Serves : Configuration N → Type 0
  Serves c = (c.env ≡ env) × (c.param ≡ param) × IsCached c.decoded

  -- The result is the specified one, and the configuration it leaves still serves.
  unfoldable pub Refines :
      {A : Type 0} → Result StorageError (A × Configuration N) → Result StorageError A → Type 0
  Refines (err e) specified = specified ≡ err e
  Refines (ok (a, c)) specified = (specified ≡ ok a) × Serves c

  insert-IsCached :
      (cache : Dict String (ProviderConfig N)) (name : String) (config : ProviderConfig N)
      → decode_anew name ≡ ok config
      → IsCached cache
      → IsCached (insert name config cache)
  unfolding IsCached
  insert-IsCached cache name config e h other found g = elim (Bool-cases (name == other)) [
    | inl same ↦
        let held = rw (lookup-insert other name config cache, same) at g in
        (rw ((string_eq.beq_iff name other).0 same) at e) ∙ ap ok (some-injective _ _ held)
    | inr differs ↦ h other found (rw (lookup-insert other name config cache, differs) at g)
  ]

  module _ (format_float : N → Text) (dir base : String → String) where
    decode_cached-Refines :
        (c : Configuration N) (name : String)
        → Serves c
        → Refines (decode_cached unmarshal format_float dir base c name) (decode_anew name)
    unfolding decode_cached Serves Refines decode_anew IsCached
    decode_cached-Refines c name (same, same', cached) =
        elim (Option-cases (lookup name c.decoded)) [
          | inr (config, found) ↦
              rw (found, decode_cached) (cached name config found, (same, same', cached))
          | inl missing ↦
              rw (missing, decode_cached, same, same')
                (elim (Result-cases (decode unmarshal param env name)) [
                  | inl (config, e) ↦
                      let anew : decode_anew name
                          ≡ ok (record config {
                            schema_options = get c.env (name <> schema_suffix);
                          }) =
                        rw (e, decode_anew, same) refl in
                      rw e (anew, (same, same', insert-IsCached c.decoded name _ anew cached))
                  | inr (x, e) ↦ rw (e, decode_anew) refl
                ])
        ]

    -- One provider that is decoded, and the others after it.
    prepare-cons :
        (c : Configuration N) (name : String) (names : List String)
        → Serves c
        → ((c' : Configuration N)
            → Serves c'
            → Refines (prepare_from unmarshal format_float dir base c' names) (decode_all names))
        → Refines
            (elim (decode_cached unmarshal format_float dir base c name) [
              | err e ↦ err e
              | ok (config, c') ↦ elim (prepare_from unmarshal format_float dir base c' names) [
                | err e ↦ err e
                | ok (configs, c'') ↦ ok (config ∷ configs, c'')
              ]
            ])
            (elim (decode_anew name) [
              | err e ↦ err e
              | ok config ↦ elim (decode_all names) [
                | err e ↦ err e
                | ok configs ↦ ok (config ∷ configs)
              ]
            ])
    unfolding Refines
    prepare-cons c name names serves rest =
        let one = decode_cached-Refines c name serves in
        elim (Result-cases (decode_cached unmarshal format_float dir base c name)) [
          | inr (x, e) ↦ rw (e, (rw e at one)) refl
          | inl ((config, c'), e) ↦
              let (anew, serves') = rw e at one in
              let others = rest c' serves' in
              elim (Result-cases (prepare_from unmarshal format_float dir base c' names)) [
                | inr (x, f) ↦ rw (e, anew, f, (rw f at others)) refl
                | inl ((configs, c''), f) ↦
                    let (all, serves'') = rw f at others in rw (e, anew, f, all) (refl, serves'')
              ]
        ]

    prepare_from-Refines :
        (c : Configuration N) (names : List String)
        → Serves c
        → Refines (prepare_from unmarshal format_float dir base c names) (decode_all names)
    unfolding prepare_from Refines decode_all Serves
    prepare_from-Refines c [] serves = (refl, serves)
    prepare_from-Refines c (name ∷ names) serves =
        elim (Bool-cases (is_empty (trim_space (chars (get c.env (name <> schema_suffix)))))) [
          | inl e ↦ rw (e, (rw serves.0 at e)) (prepare_from-Refines c names serves)
          | inr e ↦ elim (Bool-cases (looks_like_json_object (get c.env name))) [
            | inr f ↦ rw (e, (rw serves.0 at e), f, (rw serves.0 at f)) refl
            | inl f ↦
                rw (e, (rw serves.0 at e), f, (rw serves.0 at f))
                  (prepare-cons c name names serves (λ c'. prepare_from-Refines c' names))
          ]
        ]

    -- ConfigsToPrepare, with its cache of decoded providers, gives the same providers or the same error as
    -- decoding every provider with a schema anew, when the cache holds what decoding gives; and then the
    -- configuration it leaves is of the same environment, with a cache of which this holds again.
    pub configs_to_prepare-Refines :
        (c : Configuration N)
        → Serves c
        → Refines (configs_to_prepare unmarshal format_float dir base c) (decode_all c.names)
    unfolding configs_to_prepare
    configs_to_prepare-Refines c serves = prepare_from-Refines c c.names serves
