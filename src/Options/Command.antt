-- ===== src/Options/Command.antt =====
-- src/context_hmi/options_cli.cpp: the command line. `argv` is the list of the arguments after the
-- program's name.
use ctm.Prelude.{
  ℕ, ◌*◌, Bool, true, false, List, [], ◌∷◌, Bytes, Bytes-discrete, bytes_eq, codes, none, some,
  find, if◌then◌else◌, Result, ok, err, ◌>>=◌,
}
use ctm.Options.{Error, runtime_error, RuntimeOptions, maximum_int, bounded_integer}

unfoldable pub find_config_path : List Bytes → Bytes → Result Error Bytes
find_config_path [] path = ok path
find_config_path (argument ∷ []) path =
    if bytes_eq argument (codes "--config") then err runtime_error else ok path
find_config_path (argument ∷ value ∷ arguments) path =
    let after = find_config_path arguments value in
    let past = find_config_path (value ∷ arguments) path in
    if bytes_eq argument (codes "--config") then after else past

-- What an argument does: it shows the help, sets a flag, or reads the next argument.
pub data Setting : Type 0 where
  help : Setting
  flag : (RuntimeOptions → RuntimeOptions) → Setting
  text : (Bytes → RuntimeOptions → RuntimeOptions) → Setting
  number : ℕ → ℕ → (ℕ → RuntimeOptions → RuntimeOptions) → Setting

abbrev pub settings : List (Bytes × Setting)
settings =
    (codes "--config", text (λ v o. o))
    ∷ (codes "--host", text (λ v o. record o { host = v }))
    ∷ (codes "--port", number 1 65535 (λ n o. record o { port = n }))
    ∷ (codes "--model", text (λ v o. record o { model = v }))
    ∷ (codes "--models", text (λ v o. record o { models_dir = v }))
    ∷ (codes "--no-model-watch", flag (λ o. record o { watch_model = false }))
    ∷ (codes "--model-rescan-ms", number 100 60000 (λ n o. record o { model_rescan_ms = n }))
    ∷ (
      codes "--telemetry-stale-after-ms",
      number 100 300000 (λ n o. record o { telemetry_stale_after_ms = n }),
    )
    ∷ (codes "--telemetry-max-values", number 1 4096 (λ n o. record o { telemetry_max_values = n }))
    ∷ (
      codes "--telemetry-max-batch-bytes",
      number 1024 1048576 (λ n o. record o { telemetry_max_batch_bytes = n }),
    )
    ∷ (codes "--web-dir", text (λ v o. record o { web_dir = v }))
    ∷ (codes "--llama-url", text (λ v o. record o { provider_url = v }))
    ∷ (codes "--provider-url", text (λ v o. record o { provider_url = v }))
    ∷ (codes "--provider-model", text (λ v o. record o { provider_model = v }))
    ∷ (
      codes "--provider-context-bytes",
      number 1024 65536 (λ n o. record o { provider_context_bytes = n }),
    )
    ∷ (
      codes "--provider-max-output-tokens",
      number 64 2048 (λ n o. record o { provider_max_output_tokens = n }),
    )
    ∷ (codes "--provider-key-env", text (λ v o. record o { provider_api_key_env = v }))
    ∷ (codes "--llama-timeout-ms", number 100 30000 (λ n o. record o { provider_timeout_ms = n }))
    ∷ (
      codes "--provider-timeout-ms",
      number 100 30000 (λ n o. record o { provider_timeout_ms = n }),
    )
    ∷ (codes "--allow-remote", flag (λ o. record o { allow_remote = true }))
    ∷ (codes "--allow-remote-inference", flag (λ o. record o { allow_remote_inference = true }))
    ∷ (
      codes "--retrieval-cache-capacity",
      number 1 4096 (λ n o. record o { retrieval_cache_capacity = n }),
    )
    ∷ (
      codes "--interpretation-cache-capacity",
      number 1 4096 (λ n o. record o { interpretation_cache_capacity = n }),
    )
    ∷ (codes "--cache-ttl-ms", number 1000 86400000 (λ n o. record o { cache_ttl_ms = n }))
    ∷ (codes "--workbench-origin", text (λ v o. record o { workbench_origin = v }))
    ∷ (codes "--store-file", text (λ v o. record o { store_file = v }))
    ∷ (codes "--store-no-sync", flag (λ o. record o { store_sync = false }))
    ∷ (
      codes "--store-max-bytes",
      number (1024 * 1024) maximum_int (λ n o. record o { store_max_bytes = n }),
    )
    ∷ (codes "--log-file", text (λ v o. record o { diagnostic_log_file = v }))
    ∷ (codes "--log-queue", number 16 65536 (λ n o. record o { diagnostic_queue_capacity = n }))
    ∷ (
      codes "--log-rotation-bytes",
      number 4096 maximum_int (λ n o. record o { diagnostic_rotation_bytes = n }),
    )
    ∷ (
      codes "--log-rotation-files",
      number 1 32 (λ n o. record o { diagnostic_rotation_files = n }),
    )
    ∷ (codes "--operator-actor", text (λ v o. record o { operator_actor = v }))
    ∷ (codes "--help", help)
    ∷ []

-- The value of an argument that reads one.
unfoldable pub apply_value : Setting → Bytes → RuntimeOptions → Result Error RuntimeOptions
apply_value help value options = ok options
apply_value (flag set) value options = ok options
apply_value (text set) value options = ok (set value options)
apply_value (number minimum maximum set) value options =
    bounded_integer value minimum maximum >>= λ n. ok (set n options)

abbrev pub Parsed : Type 0
Parsed = RuntimeOptions × Bool

-- `apply_command_line_overrides`
unfoldable pub overrides : List Bytes → RuntimeOptions → Bool → Result Error Parsed
overrides [] options show_help = ok (options, show_help)
overrides (argument ∷ []) options show_help = elim (find Bytes-discrete argument settings) [
  | none ↦ err runtime_error
  | some help ↦ ok (options, true)
  | some (flag set) ↦ ok (set options, show_help)
  | some reads ↦ err runtime_error
]
overrides (argument ∷ value ∷ arguments) options show_help =
    elim (find Bytes-discrete argument settings) [
      | none ↦ err runtime_error
      | some help ↦ overrides (value ∷ arguments) options true
      | some (flag set) ↦ overrides (value ∷ arguments) (set options) show_help
      | some reads ↦ elim (apply_value reads value options) [
        | err e ↦ err e
        | ok changed ↦ overrides arguments changed show_help
      ]
    ]
