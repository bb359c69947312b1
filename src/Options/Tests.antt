-- ===== src/Options/Tests.antt =====
-- The theorems about the options at a small command line, with a configuration file.
use ctm.Prelude.{
  ◌≡◌, refl, false, List, [], ◌∷◌, Bytes, Bytes-discrete, codes, Option, none, some, bytes_eq, ok,
  any_of, all_of, find, if◌then◌else◌,
}
use ctm.Json.{member}
use ctm.Json.Values.{Value, num, obj, fields, values}
use ctm.Cache
use ctm.Logger
use ctm.Telemetry
use ctm.Model.Fields.{is_one_of}
use ctm.Options.{digits, bounded_integer}
use ctm.Options.Command.{Parsed, find_config_path, apply_value, overrides}
use ctm.Options.Config.{
  require_allowed, text_option, boolean_option, integer_option, unsigned_option, apply_rule,
  apply_rules, read_section, read_sections, is_version, load_config,
}
use ctm.Options.Validate.{
  loopback_host, valid_environment_name, with_key, diagnostics_refused, store_refused, validate,
  after, split_last, valid_workbench_origin,
}
use ctm.Options.Parse.{base_options, parse_options}
use ctm.Options.Start.{retrieval_cache_config, interpretation_cache_config, logger_config}
use ctm.Options.Ranges.{InRange}
use ctm.Options.Accepted.{Valid, parse_options-Valid, parse_options-constructs}

-- The file `c` sets the port and the time to live of the caches; a variable `KEY` is set.
abbrev config : Value
config = obj (
    fields (
      (codes "cache", obj (fields ((codes "ttl_seconds", num 60) ∷ [])))
      ∷ (codes "schema_version", num 1)
      ∷ (codes "server", obj (fields ((codes "port", num 9000) ∷ [])))
      ∷ []))

abbrev files : Bytes → Option Bytes
files path = if bytes_eq path (codes "c") then some (codes "{}") else none

abbrev environment : Bytes → Option Bytes
environment name = if bytes_eq name (codes "KEY") then some (codes "secret") else none

abbrev parse : Bytes → Option Value
parse body = some config

abbrev arguments : List Bytes
arguments =
    codes "--config"
    ∷ codes "c"
    ∷ codes "--provider-key-env"
    ∷ codes "KEY"
    ∷ codes "--workbench-origin"
    ∷ codes "http://localhost:5173"
    ∷ codes "--telemetry-max-values"
    ∷ codes "16"
    ∷ []

abbrev parsed : (p : Parsed) × (parse_options values files environment parse arguments ≡ ok p)
unfolding member find any_of all_of Bytes-discrete is_one_of digits bounded_integer find_config_path
    apply_value overrides require_allowed text_option boolean_option integer_option unsigned_option
    apply_rule apply_rules read_section read_sections is_version load_config loopback_host
    valid_environment_name with_key diagnostics_refused store_refused validate after split_last
    valid_workbench_origin base_options parse_options
parsed = (_, refl)

-- The file's port and the argument's limit.
parsed_numbers :
    (parsed.0.0.port ≡ 9000)
    × (parsed.0.0.telemetry_max_values ≡ 16)
    × (parsed.0.0.cache_ttl_ms ≡ 60000)
unfolding parsed
parsed_numbers = (refl, refl, refl)

parse_options-Valid_example : Valid environment parsed.0.0 × InRange parsed.0.0
parse_options-Valid_example =
    parse_options-Valid values files environment parse arguments parsed.0 parsed.1

parse_options-constructs_example :
    let o = parsed.0.0 in
    ((c : Cache.Cache Bytes Bytes) × (Cache.create (retrieval_cache_config o) ≡ ok c))
    × ((c : Cache.Cache Bytes Bytes) × (Cache.create (interpretation_cache_config o) ≡ ok c))
    × ((s : Telemetry.Store values) × (Telemetry.create values o.telemetry_stale_after_ms
            o.telemetry_max_values
          ≡ ok s))
    × (Logger.config_invalid (logger_config o) ≡ false)
parse_options-constructs_example =
    parse_options-constructs values files environment parse arguments parsed.0 parsed.1
