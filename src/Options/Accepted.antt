-- ===== src/Options/Accepted.antt =====
-- The options that `parse_options` of src/context_hmi/options.cpp returns.
use ctm.Prelude.{
  ℕ, ◌*◌, ◌^◌, ◌≤◌, ◌≡◌, refl, subst, true, false, Bool-cases, Option-cases, inl, inr, ◌⊎◌, List,
  [], ◌∷◌, Bytes, Option, some, arith, length, ◌==◌, Result-cases, ok,
}
use ctm.Json.{JsonLibrary}
use ctm.Cache
use ctm.Logger
use ctm.Telemetry
use ctm.Options.{RuntimeOptions, defaults}
use ctm.Options.Command.{Parsed, find_config_path, overrides}
use ctm.Options.Validate.{
  loopback_host, valid_workbench_origin, with_key, diagnostics_refused, store_refused, validate,
}
use ctm.Options.Parse.{base_options, parse_options}
use ctm.Options.Loopback.{
  Loopback, LoopbackOrigin, loopback_host-Loopback, valid_workbench_origin-Loopback,
}
use ctm.Options.Ranges.{Between, InRange, defaults-InRange, overrides-InRange}
use ctm.Options.Loaded.{load_config-InRange}
use ctm.Options.Start.{retrieval_cache_config, interpretation_cache_config, logger_config}

-- Options that the program may run with: the numbers in their ranges, an origin of the workbench on this
-- machine, a host of this machine unless others may connect, and a key if one is named.
pub record Valid (environment : Bytes → Option Bytes) (o : RuntimeOptions) : Type 0 where
  pub port : Between 1 65535 o.port
  pub timeout : Between 100 30000 o.provider_timeout_ms
  pub actor : Between 1 128 (length o.operator_actor)
  pub store : Between (1024 * 1024) (4 * 1024 ^ 3) o.store_max_bytes
  pub log_queue : Between 16 65536 o.diagnostic_queue_capacity
  pub log_bytes : 4096 ≤ o.diagnostic_rotation_bytes
  pub log_files : Between 1 32 o.diagnostic_rotation_files
  pub origin : (o.workbench_origin ≡ []) ⊎ LoopbackOrigin o.workbench_origin
  pub loopback : (o.allow_remote ≡ true) ⊎ Loopback o.host
  pub key :
      (o.provider_api_key_env ≡ [])
      ⊎ ((environment o.provider_api_key_env ≡ some o.provider_api_key)
          × (1 ≤ length o.provider_api_key))

empty_of_length : (s : Bytes) → (length s == 0) ≡ true → s ≡ []
empty_of_length [] h = refl
empty_of_length (c ∷ s) h = absurd (ground arith)

-- The options before the key is set.
module _ (environment : Bytes → Option Bytes) (o o' : RuntimeOptions)
    (h : validate environment o ≡ ok o') where
  key_set : with_key environment o ≡ ok o'
  unfolding validate
  key_set = ground (arith, h)

  numbers_valid :
      Between 1 65535 o.port
      × Between 100 30000 o.provider_timeout_ms
      × Between 1 128 (length o.operator_actor)
      × (store_refused o ≡ false)
      × (diagnostics_refused o ≡ false)
  unfolding validate
  numbers_valid = ground (arith, h)

  hosts_valid :
      ((length o.workbench_origin == 0) ≡ true ⊎ (valid_workbench_origin o.workbench_origin ≡ true))
      × ((o.allow_remote ≡ true) ⊎ (loopback_host o.host ≡ true))
  unfolding validate
  hosts_valid = ground (arith, h)

-- The key is the only option that `validate` sets.
with_key-cases :
    (environment : Bytes → Option Bytes) (o o' : RuntimeOptions)
    → with_key environment o ≡ ok o'
    → (key : Bytes) × (record o { provider_api_key = key } ≡ o')
      × (((length o.provider_api_key_env == 0) ≡ true)
          ⊎ ((environment o.provider_api_key_env ≡ some key) × (1 ≤ length key)))
unfolding with_key
with_key-cases environment o o' h = elim (Bool-cases (length o.provider_api_key_env == 0)) [
  | inl unnamed ↦ (o.provider_api_key, ground (arith, unnamed, h), inl unnamed)
  | inr named ↦ elim (Option-cases (environment o.provider_api_key_env)) [
    | inl missing ↦ absurd (ground (arith, named, missing, h))
    | inr (key, found) ↦
        (key, ground (arith, named, found, h), inr (found, ground (arith, named, found, h)))
  ]
]

store-Between :
    (o : RuntimeOptions)
    → store_refused o ≡ false
    → Between (1024 * 1024) (4 * 1024 ^ 3) o.store_max_bytes
unfolding store_refused
store-Between o h = ground (arith, h)

diagnostics-Between :
    (o : RuntimeOptions)
    → diagnostics_refused o ≡ false
    → Between 16 65536 o.diagnostic_queue_capacity
      × (4096 ≤ o.diagnostic_rotation_bytes)
      × Between 1 32 o.diagnostic_rotation_files
unfolding diagnostics_refused
diagnostics-Between o h = ground (arith, h)

validate-Valid :
    (environment : Bytes → Option Bytes) (o o' : RuntimeOptions)
    → validate environment o ≡ ok o'
    → InRange o
    → Valid environment o' × InRange o'
validate-Valid environment o o' h r =
    let (port, timeout, actor, store, diagnostics) = numbers_valid environment o o' h in
    let (origin, loopback) = hosts_valid environment o o' h in
    let (log_queue, log_bytes, log_files) = diagnostics-Between o diagnostics in
    let (key, same, named) = with_key-cases environment o o' (key_set environment o o' h) in
    subst (λ (t : RuntimeOptions). Valid environment t × InRange t) same
      (
        record {
          port = port;
          timeout = timeout;
          actor = actor;
          store = store-Between o store;
          log_queue = log_queue;
          log_bytes = log_bytes;
          log_files = log_files;
          origin = elim origin [
            | inl none_given ↦ inl (empty_of_length _ none_given)
            | inr good ↦ inr (valid_workbench_origin-Loopback _ good)
          ];
          loopback = elim loopback [
            | inl allowed ↦ inl allowed
            | inr good ↦ inr (loopback_host-Loopback _ good)
          ];
          key = elim named [
            | inl unnamed ↦ inl (empty_of_length _ unnamed)
            | inr found ↦ inr found
          ];
        },
        r,
      )

Cache-creates :
    {K V : Type 0} (config : Cache.Config)
    → Between 1 4096 config.capacity
    → Between 1000 86400000 config.time_to_live
    → (c : Cache.Cache K V) × (Cache.create config ≡ ok c)
unfolding Cache.create
Cache-creates {K} {V} config a b = elim (Result-cases (Cache.create {K = K} {V = V} config)) [
  | inl (e, failed) ↦ absurd (ground (arith, a, b, failed))
  | inr (c, made) ↦ (c, made)
]

Telemetry-creates :
    (library : JsonLibrary) (stale values : ℕ)
    → Between 100 300000 stale
    → Between 1 4096 values
    → (s : Telemetry.Store library) × (Telemetry.create library stale values ≡ ok s)
unfolding Telemetry.create
Telemetry-creates library stale values a b =
    elim (Result-cases (Telemetry.create library stale values)) [
      | inl (e, failed) ↦ absurd (ground (arith, a, b, failed))
      | inr (s, made) ↦ (s, made)
    ]

logger_accepts :
    (o : RuntimeOptions)
    → Between 16 65536 o.diagnostic_queue_capacity
    → 4096 ≤ o.diagnostic_rotation_bytes
    → Between 1 32 o.diagnostic_rotation_files
    → Logger.config_invalid (logger_config o) ≡ false
unfolding Logger.config_invalid
logger_accepts o queue bytes files = ground arith

base_options-InRange :
    (J : JsonLibrary) (files environment : Bytes → Option Bytes)
    (parse : Bytes → Option (JsonLibrary.Json J)) (path : Bytes) (o : RuntimeOptions)
    → base_options J files environment parse path ≡ ok o
    → InRange o
unfolding base_options
base_options-InRange J files environment parse path o h = elim (Bool-cases (length path == 0)) [
  | inl unnamed ↦
      let same : defaults ≡ o = ground (arith, unnamed, h) in subst InRange same defaults-InRange
  | inr named ↦ load_config-InRange J files parse path o (ground (arith, named, h))
]

module _ (J : JsonLibrary) (files environment : Bytes → Option Bytes) where
  open J use {Json}

  -- Options that `parse_options` returns, from whatever file and arguments, are valid: the numbers are in their
  -- ranges, the host is 127.0.0.1, localhost or ::1 unless remote access was allowed, an origin of the workbench
  -- is `http://`, one of these names, a colon and a decimal port from 1 to 65535, and a named variable of the environment gave a key that is not empty.
  pub parse_options-Valid :
      (parse : Bytes → Option Json) (arguments : List Bytes) (parsed : Parsed)
      → parse_options J files environment parse arguments ≡ ok parsed
      → Valid environment parsed.0 × InRange parsed.0
  unfolding parse_options base_options
  parse_options-Valid parse arguments parsed h =
      elim (Result-cases (find_config_path arguments [])) [
        | inl (e, failed) ↦ absurd (ground (arith, failed, h))
        | inr (path, found) ↦ elim (Result-cases (base_options J files environment parse path)) [
          | inl (e, failed) ↦ absurd (ground (arith, found, failed, h))
          | inr (base, made) ↦ elim (Result-cases (overrides arguments base false)) [
            | inl (e, failed) ↦ absurd (ground (arith, found, made, failed, h))
            | inr (changed, did) ↦ elim (Result-cases (validate environment changed.0)) [
              | inl (e, failed) ↦ absurd (ground (arith, found, made, did, failed, h))
              | inr (validated, went) ↦
                  let same : (validated, changed.1) ≡ parsed =
                    ground (arith, found, made, did, went, h) in
                  let ranges =
                    overrides-InRange arguments base false changed
                      (base_options-InRange J files environment parse path base made) did in
                  subst (λ (p : Parsed). Valid environment p.0 × InRange p.0) same
                    (validate-Valid environment changed.0 validated went ranges)
            ]
          ]
        ]
      ]

  -- With these options the constructor of every part that takes its limits from them succeeds: both caches,
  -- the telemetry store, and the logger's check of its configuration.
  pub parse_options-constructs :
      {K V : Type 0} (parse : Bytes → Option Json) (arguments : List Bytes) (parsed : Parsed)
      → parse_options J files environment parse arguments ≡ ok parsed
      → let o = parsed.0 in
        ((c : Cache.Cache K V) × (Cache.create (retrieval_cache_config o) ≡ ok c))
        × ((c : Cache.Cache K V) × (Cache.create (interpretation_cache_config o) ≡ ok c))
        × ((s : Telemetry.Store J) × (Telemetry.create J o.telemetry_stale_after_ms
                o.telemetry_max_values
              ≡ ok s))
        × (Logger.config_invalid (logger_config o) ≡ false)
  parse_options-constructs parse arguments parsed h =
      let (valid, ranges) = parse_options-Valid parse arguments parsed h in
      let (stale, values, _, _, _, _, retrieval, interpretation, ttl) = ranges in
      (
        Cache-creates (retrieval_cache_config parsed.0) retrieval ttl,
        Cache-creates (interpretation_cache_config parsed.0) interpretation ttl,
        Telemetry-creates J parsed.0.telemetry_stale_after_ms parsed.0.telemetry_max_values stale
            values,
        logger_accepts parsed.0 valid.log_queue valid.log_bytes valid.log_files,
      )
