-- ===== src/Options/Start.antt =====
-- The configurations that the constructor of `Runtime` in src/context_hmi/runtime_lifecycle.cpp
-- makes of the options for its parts.
use ctm.Prelude.{◌*◌, length, ◌==◌}
use ctm.Cache
use ctm.Logger
use ctm.Options.{RuntimeOptions}

abbrev pub retrieval_cache_config : RuntimeOptions → Cache.Config
retrieval_cache_config options = record {
  capacity = options.retrieval_cache_capacity;
  time_to_live = options.cache_ttl_ms;
}

abbrev pub interpretation_cache_config : RuntimeOptions → Cache.Config
interpretation_cache_config options = record {
  capacity = options.interpretation_cache_capacity;
  time_to_live = options.cache_ttl_ms;
}

-- The length of a record is limited by the default of `LoggerConfig`.
abbrev pub logger_config : RuntimeOptions → Logger.Config
logger_config options = record {
  path_empty = length options.diagnostic_log_file == 0;
  queue_capacity = options.diagnostic_queue_capacity;
  rotation_bytes = options.diagnostic_rotation_bytes;
  rotation_files = options.diagnostic_rotation_files;
  maximum_record_bytes = 1024 * 1024;
}
