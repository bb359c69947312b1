-- ===== src/Journal/Open.antt =====
-- Opening the journal, operational_store.cpp: the constructor, the replay of the frames that stand in
-- the file, and the recovery of a tail that is cut off.
use ctm.Prelude.{
  ℕ, zero, suc, ◌+◌, ◌-◌, Bool, not, ◌&&◌, ◌||◌, [], Bytes, bytes_eq, Option, none, some, ltb, ◌==◌,
  if◌then◌else◌, length, take, drop, Result, ok, err, ◌>>=◌, ◌>>◌, throw_if,
}
use ctm.Journal.{
  Error, configuration_invalid, could_not_inspect, symbolic_link, not_regular, parent_missing,
  could_not_create, header_invalid, exceeds_file_limit, frame_header_corrupt, frame_bounds_invalid,
  frame_checksum_invalid, payload_unreadable, truncate_failed, write_failed, out_of_fuel, FilePath,
  absent, uninspectable, symlink, other, regular, Outcome, completes, cannot_open, stops_after, Cut,
  truncates, fails_before, fails_after, JsonText, Config, remember, Journal, JournalRecord, Replay,
  Ending, at_end, torn,
}
use ctm.Journal.Frame.{
  file_magic, frame_magic, frame_version, frame_header_size, maximum_kind_bytes,
  maximum_configured_payload_bytes, get_u16, get_u32, get_u64, frame_crc, valid_kind,
}

module _ (J : JsonText) where
  open J use {Json, dump, parse_payload}

  unfoldable pub check_header : Config → ℕ → Bytes → Result Error (Unit {0})
  check_header config expected header = do
    throw_if
        (not (get_u32 header 0 == frame_magic)
          || not (get_u16 header 4 == frame_version)
          || not (get_u32 header 12 == 0) && not (get_u32 header 12 == 1)
          || not (get_u32 header 28 == 0))
        frame_header_corrupt
    throw_if
        (get_u16 header 6 == 0
          || ltb maximum_kind_bytes (get_u16 header 6)
          || ltb config.maximum_payload_bytes (get_u32 header 8)
          || not (get_u64 header 16 == expected))
        frame_bounds_invalid

  unfoldable pub check_body : Bytes → Bytes → Bytes → Result Error (JournalRecord J)
  check_body header kind payload = do
    throw_if
        (not (valid_kind kind)
          || not (frame_crc (get_u64 header 16) kind payload == get_u32 header 24))
        frame_checksum_invalid
    elim (parse_payload payload) [
      | none ↦ err payload_unreadable
      | some json ↦ ok (record { sequence = get_u64 header 16; kind = kind; payload = json })
    ]

  -- The reads of one round after its header: `none` when the frame is cut off, or the record and
  -- the bytes after it.
  unfoldable pub read_body : Bytes → Bytes → Result Error (Option (JournalRecord J × Bytes))
  read_body header input =
      let kind_size = get_u16 header 6 in
      let payload_size = get_u32 header 8 in
      let kind = take kind_size input in
      let payload = take payload_size (drop kind_size input) in
      if not (length kind == kind_size) || not (length payload == payload_size)
      then ok none
      else check_body header kind payload >>= λ entry.
          ok (some (entry, drop payload_size (drop kind_size input)))

  -- The end of a round: the record is remembered and the counters advance.
  unfoldable pub advance : Config → Bytes → JournalRecord J → Replay J → Replay J
  unfolding remember
  advance config header entry s = record {
    last_complete = s.last_complete + (frame_header_size + get_u16 header 6 + get_u32 header 8);
    expected_sequence = suc s.expected_sequence;
    recent = remember config.recent_record_limit s.recent entry;
  }

  -- How a round ends: the loop is left, or goes on over the rest of the input.
  pub data Step : Type 0 where
    stop : Ending J → Step
    again : Bytes → Replay J → Step

  -- One round of `for (;;)` of `open_and_recover`, over the bytes that are still to be read.
  unfoldable pub round : Config → Bytes → Replay J → Result Error Step
  round config input s =
      let header = take frame_header_size input in
      let after = drop frame_header_size input in
      if length header == 0
      then ok (stop (at_end s))
      else if not (length header == frame_header_size)
      then ok (stop (torn s))
      else (check_header config s.expected_sequence header
          >> (read_body header after >>= λ body. elim body [
            | none ↦ ok (stop (torn s))
            | some (entry, rest) ↦ ok (again rest (advance config header entry s))
          ]))

  unfoldable pub replay : Config → ℕ → Bytes → Replay J → Result Error (Ending J)
  replay config zero input s = err out_of_fuel
  replay config (suc fuel) input s = elim (round config input s) [
    | err e ↦ err e
    | ok (stop ending) ↦ ok ending
    | ok (again rest s') ↦ replay config fuel rest s'
  ]

  unfoldable pub opened : Config → ℕ → Replay J → Journal J
  opened config tail s = record {
    config = config;
    next_sequence = s.expected_sequence;
    recovered_tail_bytes = tail;
    recent = s.recent;
  }

  -- `open_and_recover` from the size check on: the file that it leaves, and the journal.
  unfoldable pub recover : Config → Cut → Bytes → FilePath × Result Error (Journal J)
  unfolding opened replay
  recover config cut contents =
      if ltb config.maximum_file_bytes (length contents)
      then (regular contents, err exceeds_file_limit)
      else if not (bytes_eq (take 8 contents) file_magic)
      then (regular contents, err header_invalid)
      else elim (replay config (suc (length contents)) (drop 8 contents)
          (record { last_complete = 8; expected_sequence = 1; recent = [] })) [
            | err e ↦ (regular contents, err e)
            | ok (at_end s) ↦ (regular contents, ok (opened config 0 s))
            | ok (torn s) ↦ elim cut [
              | truncates ↦ (
                regular (take s.last_complete contents),
                ok (opened config (length contents - s.last_complete) s),
              )
              | fails_before ↦ (regular contents, err truncate_failed)
              | fails_after ↦ (regular (take s.last_complete contents), err truncate_failed)
            ]
          ]

  -- The body of `open_and_recover`. `parent_exists` is the check on the parent directory.
  unfoldable pub open_and_recover :
      Config → Bool → Outcome → Cut → FilePath → FilePath × Result Error (Journal J)
  unfolding recover
  open_and_recover config parent_exists create cut uninspectable =
      (uninspectable, err could_not_inspect)
  open_and_recover config parent_exists create cut (symlink size) =
      (symlink size, err symbolic_link)
  open_and_recover config parent_exists create cut (other size) = (other size, err not_regular)
  open_and_recover config parent_exists create cut absent =
      if not parent_exists then (absent, err parent_missing) else elim create [
        | completes ↦ recover config cut file_magic
        | cannot_open ↦ (absent, err could_not_create)
        | stops_after n ↦ (regular (take n file_magic), err write_failed)
      ]
  open_and_recover config parent_exists create cut (regular contents) =
      if not parent_exists
      then (regular contents, err parent_missing)
      else if length contents == 0
      then (regular contents, err header_invalid)
      else recover config cut contents

  -- The constructor.
  unfoldable pub create_journal :
      Config → Bool → Outcome → Cut → FilePath → FilePath × Result Error (Journal J)
  unfolding open_and_recover
  create_journal config parent_exists create cut file =
      if config.path_empty
        || config.maximum_payload_bytes == 0
        || ltb 0xffff_ffff config.maximum_payload_bytes
        || ltb maximum_configured_payload_bytes config.maximum_payload_bytes
        || ltb config.maximum_file_bytes (8 + frame_header_size)
        || config.recent_record_limit == 0
      then (file, err configuration_invalid)
      else open_and_recover config parent_exists create cut file
