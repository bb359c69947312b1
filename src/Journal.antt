-- ===== src/Journal.antt =====
-- src/context_hmi/operational_store.hpp and operational_store.cpp: `Journal`, the append-only file of
-- framed records. The file system is an explicit state: what stands at the configured path. The
-- JSON library is a parameter (`JsonText`). `std::FILE` and `fsync` are an outcome of each call,
-- chosen by the environment, which says how many bytes reached the file before a failure.
pub mod Frame
pub mod Header
pub mod Open
pub mod Append
pub mod Log
pub mod Round
pub mod Recovery
pub mod Reopen
pub mod Appends
pub mod Crash
pub mod Duplicate
pub mod Bounds
pub mod Tests
use ctm.Prelude.{
  ℕ, suc, ◌++◌, Bool, List, [], ◌∷◌, Bytes, Option, leb, if◌then◌else◌, length, drop, ◌-◌, min,
}

pub data Error : Type 0 where
  configuration_invalid could_not_inspect symbolic_link not_regular parent_missing : Error
  could_not_create header_invalid exceeds_file_limit could_not_open : Error
  frame_header_corrupt frame_bounds_invalid frame_checksum_invalid payload_unreadable : Error
  truncate_failed kind_invalid payload_too_large file_limit_reached path_changed write_failed :
      Error
  dump_failed out_of_fuel : Error

-- What stands at the path of the journal.
pub data FilePath : Type 0 where
  absent uninspectable : FilePath
  -- with the size that `file_size` reports for it, if any
  symlink other : Option ℕ → FilePath
  regular : Bytes → FilePath

-- The calls of nlohmann::json: `dump` throws on text that is not UTF-8, and `parse` with the
-- callback of `parse_payload` throws on a bad text or one that is nested deeper than 32.
pub record JsonText : Type 1 where
  pub Json : Type 0
  pub dump : Json → Option Bytes
  pub parse_payload : Bytes → Option Json

pub record Config : Type 0 where
  pub path_empty : Bool
  pub maximum_payload_bytes : ℕ
  pub maximum_file_bytes : ℕ
  pub recent_record_limit : ℕ
  pub synchronize : Bool

-- How writing bytes to the file went: all of them and the flush, or a failure to open it, or a
-- failure after some number of bytes had reached it (that number may be all of them, when only
-- the flush, the synchronization or the close failed).
pub data Outcome : Type 0 where
  completes cannot_open : Outcome
  stops_after : ℕ → Outcome

-- How truncating the file went: done, or a failure before or after it was cut.
pub data Cut : Type 0 where
  truncates fails_before fails_after : Cut

-- `recent_.erase(recent_.begin())` at the limit, then `push_back`.
unfoldable pub remember {ℓ} : {A : Type ℓ} → ℕ → List A → A → List A
remember limit recent entry =
    if leb limit (length recent) then drop 1 recent ++ entry ∷ [] else recent ++ entry ∷ []

module _ (J : JsonText) where
  open J use {Json, dump, parse_payload}

  pub record JournalRecord : Type 0 where
    pub sequence : ℕ
    pub kind : Bytes
    pub payload : Json

  pub record Journal : Type 0 where
    pub config : Config
    pub next_sequence : ℕ
    pub recovered_tail_bytes : ℕ
    pub recent : List JournalRecord

  -- The variables of the replay loop.
  pub record Replay : Type 0 where
    pub last_complete : ℕ
    pub expected_sequence : ℕ
    pub recent : List JournalRecord

  -- How the loop ends: at the end of the file, or at a frame that is cut off.
  pub data Ending : Type 0 where
    at_end torn : Replay → Ending

  -- The last `limit` of the recent records.
  unfoldable pub recent_records : Journal → ℕ → List JournalRecord
  recent_records j limit =
      let limit' = min limit (length j.recent) in drop (length j.recent - limit') j.recent
