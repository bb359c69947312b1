-- ===== src/Options/Parse.antt =====
-- src/context_hmi/options.cpp: `parse_options`.
use ctm.Prelude.{false, List, Bytes, Option, ◌==◌, if◌then◌else◌, length, [], Result, ok, ◌>>=◌}
use ctm.Json.{JsonLibrary}
use ctm.Options.{Error, RuntimeOptions, defaults}
use ctm.Options.Command.{Parsed, find_config_path, overrides}
use ctm.Options.Config.{load_config}
use ctm.Options.Validate.{validate}

module _ (J : JsonLibrary) (files environment : Bytes → Option Bytes) where
  open J use {Json}

  unfoldable pub base_options : (Bytes → Option Json) → Bytes → Result Error RuntimeOptions
  base_options parse path = if length path == 0 then ok defaults else load_config J files parse path

  unfoldable pub parse_options : (Bytes → Option Json) → List Bytes → Result Error Parsed
  parse_options parse arguments = do
    path ← find_config_path arguments []
    options ← base_options parse path
    parsed ← overrides arguments options false
    validated ← validate environment parsed.0
    ok (validated, parsed.1)
