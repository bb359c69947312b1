-- ===== src/Options/Config.antt =====
-- src/context_hmi/options_config.cpp: the configuration file. The file's text is an argument, `none` for a
-- path that is no readable regular file; `parse` is `Json::parse` with the limit of the nesting.
use ctm.Prelude.{
  ℕ, ◌*◌, ◌/◌, Bool, false, not, ◌&&◌, ◌||◌, List, [], ◌∷◌, Bytes, codes, Option, none, some, ltb,
  ◌==◌, if◌then◌else◌, length, map, all_of, Result, ok, err, ◌>>=◌, ◌>>◌, throw_if,
}
use ctm.Json.{JsonLibrary, boolean, unsigned, signed, members, text, member}
use ctm.Model.Fields.{is_one_of}
use ctm.Options.{Error, runtime_error, RuntimeOptions, defaults, maximum_int}

abbrev pub maximum_config_bytes : ℕ
maximum_config_bytes = 64 * 1024

abbrev pub maximum_config_string : ℕ
maximum_config_string = 4096

-- A line of a section: the key's kind, its range, and the option that it falls back on and sets.
pub data Rule : Type 0 where
  text_rule : (RuntimeOptions → Bytes) → (Bytes → RuntimeOptions → RuntimeOptions) → Rule
  boolean_rule : (RuntimeOptions → Bool) → (Bool → RuntimeOptions → RuntimeOptions) → Rule
  integer_rule : ℕ → ℕ → (RuntimeOptions → ℕ) → (ℕ → RuntimeOptions → RuntimeOptions) → Rule
  unsigned_rule : (RuntimeOptions → ℕ) → (ℕ → RuntimeOptions → RuntimeOptions) → Rule

abbrev pub Rules : Type 0
Rules = List (Bytes × Rule)

abbrev pub server_rules : Rules
server_rules =
    (codes "host", text_rule (λ o. o.host) (λ v o. record o { host = v }))
    ∷ (codes "port", integer_rule 1 65535 (λ o. o.port) (λ n o. record o { port = n }))
    ∷ (
      codes "allow_remote",
      boolean_rule (λ o. o.allow_remote) (λ v o. record o { allow_remote = v }),
    )
    ∷ (
      codes "workbench_origin",
      text_rule (λ o. o.workbench_origin) (λ v o. record o { workbench_origin = v }),
    )
    ∷ (codes "web_dir", text_rule (λ o. o.web_dir) (λ v o. record o { web_dir = v }))
    ∷ []

abbrev pub machine_rules : Rules
machine_rules =
    (codes "model", text_rule (λ o. o.model) (λ v o. record o { model = v }))
    ∷ (codes "models_dir", text_rule (λ o. o.models_dir) (λ v o. record o { models_dir = v }))
    ∷ (codes "watch", boolean_rule (λ o. o.watch_model) (λ v o. record o { watch_model = v }))
    ∷ (
      codes "rescan_ms",
      integer_rule 100 60000 (λ o. o.model_rescan_ms) (λ n o. record o { model_rescan_ms = n }),
    )
    ∷ []

abbrev pub telemetry_rules : Rules
telemetry_rules =
    (
      codes "stale_after_ms",
      integer_rule 100 300000 (λ o. o.telemetry_stale_after_ms)
          (λ n o. record o { telemetry_stale_after_ms = n }),
    )
    ∷ (
      codes "max_values",
      integer_rule 1 4096 (λ o. o.telemetry_max_values)
          (λ n o. record o { telemetry_max_values = n }),
    )
    ∷ (
      codes "max_batch_bytes",
      integer_rule 1024 1048576 (λ o. o.telemetry_max_batch_bytes)
          (λ n o. record o { telemetry_max_batch_bytes = n }),
    )
    ∷ []

abbrev pub inference_rules : Rules
inference_rules =
    (codes "endpoint", text_rule (λ o. o.provider_url) (λ v o. record o { provider_url = v }))
    ∷ (codes "model", text_rule (λ o. o.provider_model) (λ v o. record o { provider_model = v }))
    ∷ (
      codes "timeout_ms",
      integer_rule 100 30000 (λ o. o.provider_timeout_ms)
          (λ n o. record o { provider_timeout_ms = n }),
    )
    ∷ (
      codes "context_bytes",
      integer_rule 1024 65536 (λ o. o.provider_context_bytes)
          (λ n o. record o { provider_context_bytes = n }),
    )
    ∷ (
      codes "max_output_tokens",
      integer_rule 64 2048 (λ o. o.provider_max_output_tokens)
          (λ n o. record o { provider_max_output_tokens = n }),
    )
    ∷ (
      codes "allow_remote",
      boolean_rule (λ o. o.allow_remote_inference) (λ v o. record o { allow_remote_inference = v }),
    )
    ∷ (
      codes "key_env",
      text_rule (λ o. o.provider_api_key_env) (λ v o. record o { provider_api_key_env = v }),
    )
    ∷ []

abbrev pub cache_rules : Rules
cache_rules =
    (
      codes "retrieval_capacity",
      integer_rule 1 4096 (λ o. o.retrieval_cache_capacity)
          (λ n o. record o { retrieval_cache_capacity = n }),
    )
    ∷ (
      codes "interpretation_capacity",
      integer_rule 1 4096 (λ o. o.interpretation_cache_capacity)
          (λ n o. record o { interpretation_cache_capacity = n }),
    )
    ∷ (
      codes "ttl_seconds",
      integer_rule 1 86400 (λ o. o.cache_ttl_ms / 1000)
          (λ n o. record o { cache_ttl_ms = n * 1000 }),
    )
    ∷ []

abbrev pub audit_rules : Rules
audit_rules =
    (codes "actor", text_rule (λ o. o.operator_actor) (λ v o. record o { operator_actor = v })) ∷ []

abbrev pub storage_rules : Rules
storage_rules =
    (codes "file", text_rule (λ o. o.store_file) (λ v o. record o { store_file = v }))
    ∷ (codes "synchronize", boolean_rule (λ o. o.store_sync) (λ v o. record o { store_sync = v }))
    ∷ (
      codes "maximum_bytes",
      unsigned_rule (λ o. o.store_max_bytes) (λ n o. record o { store_max_bytes = n }),
    )
    ∷ []

abbrev pub diagnostics_rules : Rules
diagnostics_rules =
    (
      codes "file",
      text_rule (λ o. o.diagnostic_log_file) (λ v o. record o { diagnostic_log_file = v }),
    )
    ∷ (
      codes "queue_capacity",
      integer_rule 16 65536 (λ o. o.diagnostic_queue_capacity)
          (λ n o. record o { diagnostic_queue_capacity = n }),
    )
    ∷ (
      codes "rotation_bytes",
      integer_rule 4096 maximum_int (λ o. o.diagnostic_rotation_bytes)
          (λ n o. record o { diagnostic_rotation_bytes = n }),
    )
    ∷ (
      codes "rotation_files",
      integer_rule 1 32 (λ o. o.diagnostic_rotation_files)
          (λ n o. record o { diagnostic_rotation_files = n }),
    )
    ∷ []

-- The sections in the order in which they are read.
abbrev pub sections : List (Bytes × Rules)
sections =
    (codes "server", server_rules)
    ∷ (codes "machine", machine_rules)
    ∷ (codes "telemetry", telemetry_rules)
    ∷ (codes "inference", inference_rules)
    ∷ (codes "cache", cache_rules)
    ∷ (codes "audit", audit_rules)
    ∷ (codes "storage", storage_rules)
    ∷ (codes "diagnostics", diagnostics_rules)
    ∷ []

module _ (J : JsonLibrary) where
  open J use {Json, kind}

  unfoldable pub require_allowed : Json → List Bytes → Result Error (Unit {0})
  require_allowed value names = elim (members J value) [
    | none ↦ err runtime_error
    | some fields ↦
        throw_if (not (all_of (λ (field : Bytes × Json). is_one_of names field.0) fields))
          runtime_error
  ]

  unfoldable pub text_option : Json → Bytes → Bytes → Result Error Bytes
  text_option section key fallback = elim (member J section key) [
    | none ↦ ok fallback
    | some value ↦ elim (text J value) [
      | none ↦ err runtime_error
      | some s ↦ if ltb maximum_config_string (length s) then err runtime_error else ok s
    ]
  ]

  unfoldable pub boolean_option : Json → Bytes → Bool → Result Error Bool
  boolean_option section key fallback = elim (member J section key) [
    | none ↦ ok fallback
    | some value ↦ elim (kind value) [ boolean b ↦ ok b | _ ↦ err runtime_error ]
  ]

  abbrev pub checked : ℕ → ℕ → ℕ → Result Error ℕ
  checked minimum maximum n = if ltb n minimum || ltb maximum n then err runtime_error else ok n

  -- A negative integer is below every `minimum` that is used, and so is an unsigned one that does not fit 64
  -- bits with a sign, which the source reads as negative; here it is above every `maximum`.
  unfoldable pub integer_option : Json → Bytes → ℕ → ℕ → ℕ → Result Error ℕ
  integer_option section key fallback minimum maximum = elim (member J section key) [
    | none ↦ ok fallback
    | some value ↦ elim (kind value) [
      | unsigned n ↦ checked minimum maximum n
      | signed negative n ↦ if negative then err runtime_error else checked minimum maximum n
      | _ ↦ err runtime_error
    ]
  ]

  unfoldable pub unsigned_option : Json → Bytes → ℕ → Result Error ℕ
  unsigned_option section key fallback = elim (member J section key) [
    | none ↦ ok fallback
    | some value ↦ elim (kind value) [ unsigned n ↦ ok n | _ ↦ err runtime_error ]
  ]

  unfoldable pub apply_rule : Json → Bytes → Rule → RuntimeOptions → Result Error RuntimeOptions
  apply_rule section key (text_rule get set) options =
      text_option section key (get options) >>= λ v. ok (set v options)
  apply_rule section key (boolean_rule get set) options =
      boolean_option section key (get options) >>= λ v. ok (set v options)
  apply_rule section key (integer_rule minimum maximum get set) options =
      integer_option section key (get options) minimum maximum >>= λ n. ok (set n options)
  apply_rule section key (unsigned_rule get set) options =
      unsigned_option section key (get options) >>= λ n. ok (set n options)

  unfoldable pub apply_rules : Json → Rules → RuntimeOptions → Result Error RuntimeOptions
  apply_rules section [] options = ok options
  apply_rules section ((key, rule) ∷ rules) options = elim (apply_rule section key rule options) [
    | err e ↦ err e
    | ok changed ↦ apply_rules section rules changed
  ]

  -- A section of the file, when it has one. The fields that it may have are those that it reads.
  unfoldable pub read_section : Json → Bytes → Rules → RuntimeOptions → Result Error RuntimeOptions
  read_section config name rules options = elim (member J config name) [
    | none ↦ ok options
    | some section ↦
        require_allowed section (map (λ (entry : Bytes × Rule). entry.0) rules)
        >> apply_rules section rules options
  ]

  unfoldable pub read_sections :
      Json → List (Bytes × Rules) → RuntimeOptions → Result Error RuntimeOptions
  read_sections config [] options = ok options
  read_sections config ((name, rules) ∷ rest) options =
      elim (read_section config name rules options) [
        | err e ↦ err e
        | ok changed ↦ read_sections config rest changed
      ]

  unfoldable pub is_version : Option Json → Bool
  is_version none = false
  is_version (some value) = elim (kind value) [
    | unsigned n ↦ n == 1
    | signed negative n ↦ not negative && n == 1
    | _ ↦ false
  ]

  unfoldable pub load_config :
      (Bytes → Option Bytes) → (Bytes → Option Json) → Bytes → Result Error RuntimeOptions
  load_config files parse path = elim (files path) [
    | none ↦ err runtime_error
    | some body ↦
        if ltb maximum_config_bytes (length body) then err runtime_error else elim (parse body) [
          | none ↦ err runtime_error
          | some config ↦ do
            require_allowed config (
                codes "schema_version"
                ∷ codes "server"
                ∷ codes "machine"
                ∷ codes "telemetry"
                ∷ codes "inference"
                ∷ codes "cache"
                ∷ codes "audit"
                ∷ codes "storage"
                ∷ codes "diagnostics"
                ∷ [])
            throw_if (not (is_version (member J config (codes "schema_version")))) runtime_error
            options ← read_sections config sections defaults
            ok (record options { config_file = path })
        ]
  ]
