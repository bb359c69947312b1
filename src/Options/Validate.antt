-- ===== src/Options/Validate.antt =====
-- `validate` of src/context_hmi/options_validation.cpp. `environment` is `getenv`.
use ctm.Prelude.{
  ℕ, suc, ◌*◌, ◌^◌, Bool, true, false, not, ◌&&◌, ◌||◌, [], ◌∷◌, Bytes, bytes_eq, codes, Option,
  none, some, leb, ltb, ◌==◌, if◌then◌else◌, length, all_of, any_of, Result, ok, err, ◌>>◌,
  throw_if,
}
use ctm.Options.{Error, runtime_error, RuntimeOptions, bounded_integer}

unfoldable pub loopback_host : Bytes → Bool
loopback_host host =
    any_of (bytes_eq host) (codes "127.0.0.1" ∷ codes "localhost" ∷ codes "::1" ∷ [])

abbrev pub is_upper : ℕ → Bool
is_upper c = leb b'A' c && leb c b'Z'

unfoldable pub valid_environment_name : Bytes → Bool
valid_environment_name [] = false
valid_environment_name (c ∷ name) =
    not (ltb 128 (suc (length name)))
    && (c == b'_' || is_upper c)
    && all_of (λ d. d == b'_' || is_upper d || leb b'0' d && leb d b'9') name

-- What stands after a prefix.
unfoldable pub after : Bytes → Bytes → Option Bytes
after [] text = some text
after (c ∷ prefix) [] = none
after (c ∷ prefix) (d ∷ text) = if c == d then after prefix text else none

-- The parts before and after the last colon.
unfoldable pub split_last : Bytes → Option (Bytes × Bytes)
split_last [] = none
split_last (c ∷ text) = elim (split_last text) [
  | some parts ↦ some (c ∷ parts.0, parts.1)
  | none ↦ if c == b':' then some ([], text) else none
]

unfoldable pub valid_workbench_origin : Bytes → Bool
valid_workbench_origin origin = elim (after (codes "http://") origin) [
  | none ↦ false
  | some authority ↦
      if length authority == 0 || any_of (λ c. c == b'/' || c == b'@') authority
      then false
      else elim (split_last authority) [
        | none ↦ false
        | some parts ↦
            loopback_host parts.0
            && elim (bounded_integer parts.1 1 65535) [ err _ ↦ false | ok _ ↦ true ]
      ]
]

-- The key of the provider, if the options name a variable that holds it.
unfoldable pub with_key : (Bytes → Option Bytes) → RuntimeOptions → Result Error RuntimeOptions
with_key environment options =
    if length options.provider_api_key_env == 0
    then ok options
    else if valid_environment_name options.provider_api_key_env
    then elim (environment options.provider_api_key_env) [
      | none ↦ err runtime_error
      | some key ↦
          if length key == 0
          then err runtime_error
          else ok (record options { provider_api_key = key })
    ]
    else err runtime_error

-- The limits of the diagnostic logger.
unfoldable pub diagnostics_refused : RuntimeOptions → Bool
diagnostics_refused options =
    ltb options.diagnostic_queue_capacity 16
    || ltb 65536 options.diagnostic_queue_capacity
    || ltb options.diagnostic_rotation_bytes 4096
    || ltb options.diagnostic_rotation_files 1
    || ltb 32 options.diagnostic_rotation_files

-- The limits of the operational store.
unfoldable pub store_refused : RuntimeOptions → Bool
store_refused options =
    ltb options.store_max_bytes (1024 * 1024) || ltb (4 * 1024 ^ 3) options.store_max_bytes

unfoldable pub validate : (Bytes → Option Bytes) → RuntimeOptions → Result Error RuntimeOptions
validate environment options = do
  throw_if (ltb options.port 1 || ltb 65535 options.port) runtime_error
  throw_if (ltb options.provider_timeout_ms 100 || ltb 30000 options.provider_timeout_ms)
      runtime_error
  throw_if (length options.model == 0 || length options.models_dir == 0) runtime_error
  throw_if (length options.operator_actor == 0 || ltb 128 (length options.operator_actor))
      runtime_error
  throw_if (store_refused options) runtime_error
  throw_if (diagnostics_refused options) runtime_error
  throw_if
      (not (length options.workbench_origin == 0)
        && not (valid_workbench_origin options.workbench_origin))
      runtime_error
  throw_if (not options.allow_remote && not (loopback_host options.host)) runtime_error
  with_key environment options
