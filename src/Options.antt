-- ===== src/Options.antt =====
-- src/context_hmi/options.hpp and `bounded_integer` of options_validation.cpp: the options of the
-- service. Every error of the parts below is the `std::runtime_error` with some text.
pub mod Command
pub mod Config
pub mod Validate
pub mod Parse
pub mod Ranges
pub mod Loaded
pub mod Start
pub mod Loopback
pub mod Accepted
pub mod Tests
use ctm.Prelude.{
  ℕ, ◌+◌, ◌*◌, ◌-◌, ◌^◌, Bool, true, false, List, [], ◌∷◌, Bytes, codes, Option, none, some, leb,
  ltb, ◌&&◌, ◌||◌, if◌then◌else◌, Result, ok, err,
}

pub data Error : Type 0 where
  runtime_error : Error

pub record RuntimeOptions : Type 0 where
  pub host : Bytes
  pub port : ℕ
  pub model : Bytes
  pub models_dir : Bytes
  pub watch_model : Bool
  pub model_rescan_ms : ℕ
  pub telemetry_stale_after_ms : ℕ
  pub telemetry_max_values : ℕ
  pub telemetry_max_batch_bytes : ℕ
  pub web_dir : Bytes
  pub provider_url : Bytes
  pub provider_model : Bytes
  pub provider_api_key : Bytes
  pub provider_api_key_env : Bytes
  pub provider_timeout_ms : ℕ
  pub provider_context_bytes : ℕ
  pub provider_max_output_tokens : ℕ
  pub retrieval_cache_capacity : ℕ
  pub interpretation_cache_capacity : ℕ
  pub cache_ttl_ms : ℕ
  pub allow_remote : Bool
  pub allow_remote_inference : Bool
  pub workbench_origin : Bytes
  pub store_file : Bytes
  pub store_sync : Bool
  pub store_max_bytes : ℕ
  pub diagnostic_log_file : Bytes
  pub diagnostic_queue_capacity : ℕ
  pub diagnostic_rotation_bytes : ℕ
  pub diagnostic_rotation_files : ℕ
  pub operator_actor : Bytes
  pub config_file : Bytes

-- The options before any is set.
abbrev pub defaults : RuntimeOptions
defaults = record {
  host = codes "127.0.0.1";
  port = 8080;
  model = codes "examples/machines/assembly-line.json";
  models_dir = codes "examples/machines";
  watch_model = true;
  model_rescan_ms = 500;
  telemetry_stale_after_ms = 3000;
  telemetry_max_values = 512;
  telemetry_max_batch_bytes = 65536;
  web_dir = [];
  provider_url = [];
  provider_model = codes "local-model";
  provider_api_key = [];
  provider_api_key_env = [];
  provider_timeout_ms = 5000;
  provider_context_bytes = 12288;
  provider_max_output_tokens = 256;
  retrieval_cache_capacity = 256;
  interpretation_cache_capacity = 128;
  cache_ttl_ms = 300000;
  allow_remote = false;
  allow_remote_inference = false;
  workbench_origin = [];
  store_file = [];
  store_sync = true;
  store_max_bytes = 64 * 1024 * 1024;
  diagnostic_log_file = [];
  diagnostic_queue_capacity = 1024;
  diagnostic_rotation_bytes = 8 * 1024 * 1024;
  diagnostic_rotation_files = 3;
  operator_actor = codes "local-operator";
  config_file = [];
}

abbrev pub maximum_int : ℕ
maximum_int = 2 ^ 31 - 1

abbrev pub is_digit : ℕ → Bool
is_digit c = leb b'0' c && leb c b'9'

-- The digits of a number, after those that make up `value`.
unfoldable pub digits : Bytes → ℕ → Option ℕ
digits [] value = some value
digits (c ∷ text) value =
    let rest = digits text (value * 10 + (c - b'0')) in if is_digit c then rest else none

-- `from_chars` that takes the whole text. A text with a sign is a negative number or none at all, and
-- below every `minimum` that is used; a number that does not fit an `int` is above every `maximum`.
unfoldable pub bounded_integer : Bytes → ℕ → ℕ → Result Error ℕ
bounded_integer [] minimum maximum = err runtime_error
bounded_integer (c ∷ text) minimum maximum = elim (digits (c ∷ text) 0) [
  | none ↦ err runtime_error
  | some n ↦ if ltb n minimum || ltb maximum n then err runtime_error else ok n
]
