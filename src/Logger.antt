-- ===== src/Logger.antt =====
-- src/context_hmi/diagnostic_logger.hpp and diagnostic_logger.cpp: `Logger`. The worker thread is a
-- phase; its steps and those of the callers interleave at the lock and at the counters of accepted and
-- written records, and what follows a failed write is one step. The files
-- are the state of Logger/Rotation. The text of a record is made by the JSON library: it is an argument
-- of `write`, `none` when the library throws. What goes to the standard error stream is `console`.
pub mod Rotation
pub mod Shift
pub mod Size
pub mod Accounting
pub mod Tests
use ctm.Prelude.{
  ℕ, suc, ◌+◌, ◌-◌, Bool, true, false, not, ◌&&◌, ◌||◌, List, [], ◌∷◌, ◌++◌, Bytes, Option, none,
  some, leb, ltb, ◌==◌, if◌then◌else◌, length, add64, Result, ok, err,
}

pub record Config : Type 0 where
  pub path_empty : Bool
  pub queue_capacity : ℕ
  pub rotation_bytes : ℕ
  pub rotation_files : ℕ
  pub maximum_record_bytes : ℕ

pub data Severity : Type 0 where
  debug info warning error : Severity

pub data Error : Type 0 where
  configuration_invalid could_not_inspect symbolic_link not_regular parent_missing : Error
  event_invalid encoding_failed could_not_open write_failed rotation_failed : Error

unfoldable pub low_severity : Severity → Bool
low_severity debug = true
low_severity info = true
low_severity warning = false
low_severity error = false

-- A record, or a line in which the logger speaks of one.
pub data ConsoleLine : Type 0 where
  plain : Bytes → ConsoleLine
  record_rejected write_failure : ConsoleLine

-- Where the worker is in `run`: before the lock, with a record taken, before `written_` is
-- incremented, or returned (or never started, without a path).
pub data Phase : Type 0 where
  waiting counting returned : Phase
  writing : Bytes → Phase

-- `announcing` counts the callers of `write` between the lock and the increment of `accepted_`.
pub record Logger : Type 0 where
  pub config : Config
  pub queue : List Bytes
  pub phase : Phase
  pub accepting : Bool
  pub stopping : Bool
  pub announcing : ℕ
  pub accepted : ℕ
  pub written : ℕ
  pub dropped : ℕ
  pub fallback : ℕ
  pub failed : Bool
  pub console : List ConsoleLine

-- The check of the constructor.
unfoldable pub config_invalid : Config → Bool
config_invalid config =
    config.queue_capacity == 0
    || ltb config.rotation_bytes 4096
    || config.rotation_files == 0
    || ltb 32 config.rotation_files
    || ltb config.maximum_record_bytes 256

abbrev pub created : Config → Phase → Logger
created config phase = record {
  config = config;
  queue = [];
  phase = phase;
  accepting = true;
  stopping = false;
  announcing = 0;
  accepted = 0;
  written = 0;
  dropped = 0;
  fallback = 0;
  failed = false;
  console = [];
}

-- The record goes to the standard error stream, and is counted.
unfoldable pub fall_back : Logger → ConsoleLine → Logger
fall_back l line = record l { console = l.console ++ line ∷ []; fallback = add64 l.fallback 1 }

unfoldable pub fall_back_unless_low : Logger → Severity → ConsoleLine → Logger
unfolding fall_back
fall_back_unless_low l severity line = if low_severity severity then l else fall_back l line

-- The locked section of `write`, and the branch of a full queue.
unfoldable pub enqueue : Logger → Severity → Bytes → Logger
enqueue l severity encoded =
    if not l.accepting || leb l.config.queue_capacity (length l.queue)
    then fall_back_unless_low (record l { dropped = add64 l.dropped 1 }) severity (plain encoded)
    else record l { queue = l.queue ++ encoded ∷ []; announcing = suc l.announcing }

-- `write` up to the increment of `accepted_`; `event` is the size of the event's name.
unfoldable pub write :
    Logger → Severity → ℕ → Bool → Option Bytes → Logger × Result Error (Unit {0})
write l severity event is_object none =
    if event == 0 || ltb 128 event || not is_object
    then (l, err event_invalid)
    else (l, err encoding_failed)
write l severity event is_object (some encoded) =
    if event == 0 || ltb 128 event || not is_object
    then (l, err event_invalid)
    else if ltb l.config.maximum_record_bytes (length encoded)
        || ltb l.config.rotation_bytes (length encoded)
    then (
      fall_back_unless_low (record l { dropped = add64 l.dropped 1 }) severity record_rejected,
      ok tt,
    )
    else if l.config.path_empty
    then (fall_back_unless_low l severity (plain encoded), ok tt)
    else (enqueue l severity encoded, ok tt)

-- The end of `write` after a record was queued.
unfoldable pub announce : Logger → Logger
announce l =
    if l.announcing == 0
    then l
    else record l { announcing = l.announcing - 1; accepted = add64 l.accepted 1 }

-- The locked section of `run`; nothing happens while the wait's condition is false, and the worker may
-- look again at any time.
unfoldable pub take_record : Logger → Logger
take_record l = elim l.queue [
  | [] ↦ if l.stopping then record l { phase = returned } else l
  | encoded ∷ rest ↦ record l { queue = rest; phase = writing encoded }
]

-- The end of `write_record` in `run`, with its result.
unfoldable pub end_write : Logger → Bytes → Result Error (Unit {0}) → Logger
end_write l encoded (ok tt) = record l { phase = counting }
end_write l encoded (err e) = record l {
  phase = waiting;
  failed = true;
  fallback = add64 l.fallback 1;
  console = l.console ++ plain encoded ∷ write_failure ∷ [];
}

unfoldable pub begin_shutdown : Logger → Logger
begin_shutdown l = if l.stopping then l else record l { accepting = false; stopping = true }
