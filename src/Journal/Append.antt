-- ===== src/Journal/Append.antt =====
-- `append` of operational_store.cpp.
use ctm.Prelude.{
  ℕ, suc, ◌+◌, ◌-◌, Bool, true, not, ◌||◌, ◌++◌, Bytes, Option, none, some, ltb, if◌then◌else◌,
  length, take, Result, ok, err,
}
use ctm.Journal.{
  Error, kind_invalid, dump_failed, payload_too_large, file_limit_reached, path_changed,
  could_not_open, write_failed, FilePath, symlink, other, regular, Outcome, completes, cannot_open,
  stops_after, JsonText, Config, remember, Journal, JournalRecord,
}
use ctm.Journal.Frame.{frame_header_size, encode_frame, valid_kind}

module _ (J : JsonText) where
  open J use {Json, dump, parse_payload}

  -- The end of `append`, once the frame is in the file.
  unfoldable pub appended : Journal J → Bytes → Json → Journal J × Result Error ℕ
  unfolding remember
  appended j kind payload =
      let entry : JournalRecord J = record {
        sequence = j.next_sequence;
        kind = kind;
        payload = payload;
      } in
      (
        record j {
          next_sequence = suc j.next_sequence;
          recent = remember j.config.recent_record_limit j.recent entry;
        },
        ok j.next_sequence,
      )

  -- The writes of `append`, and what follows them.
  unfoldable pub write_frame :
      Journal J → Bytes → Json → Bytes → Outcome → Bytes → FilePath × Journal J × Result Error ℕ
  unfolding appended
  write_frame j kind payload encoded outcome contents =
      let frame = encode_frame j.config.synchronize j.next_sequence kind encoded in
      elim outcome [
        | completes ↦
            (regular (contents ++ frame), (appended j kind payload).0, (appended j kind payload).1)
        | cannot_open ↦ (regular contents, j, err could_not_open)
        | stops_after n ↦ (regular (contents ++ take n frame), j, err write_failed)
      ]

  -- The check on the file's size.
  unfoldable pub over_limit : Config → ℕ → Option ℕ → Bool
  over_limit config frame_size none = true
  over_limit config frame_size (some current) =
      ltb config.maximum_file_bytes current || ltb (config.maximum_file_bytes - current) frame_size

  -- `append` under the lock.
  unfoldable pub append_locked :
      Journal J → FilePath → Bytes → Json → Bytes → Outcome → FilePath × Journal J × Result Error ℕ
  unfolding write_frame over_limit
  append_locked j (regular contents) kind payload encoded outcome =
      if over_limit j.config (frame_header_size + length kind + length encoded)
        (some (length contents))
      then (regular contents, j, err file_limit_reached)
      else write_frame j kind payload encoded outcome contents
  append_locked j (symlink size) kind payload encoded outcome =
      if over_limit j.config (frame_header_size + length kind + length encoded) size
      then (symlink size, j, err file_limit_reached)
      else (symlink size, j, err path_changed)
  append_locked j (other size) kind payload encoded outcome =
      if over_limit j.config (frame_header_size + length kind + length encoded) size
      then (other size, j, err file_limit_reached)
      else (other size, j, err path_changed)
  append_locked j file kind payload encoded outcome = (file, j, err file_limit_reached)

  unfoldable pub append :
      Journal J → FilePath → Bytes → Json → Outcome → FilePath × Journal J × Result Error ℕ
  unfolding append_locked
  append j file kind payload outcome =
      if not (valid_kind kind) then (file, j, err kind_invalid) else elim (dump payload) [
        | none ↦ (file, j, err dump_failed)
        | some encoded ↦
            if ltb j.config.maximum_payload_bytes (length encoded)
            then (file, j, err payload_too_large)
            else append_locked j file kind payload encoded outcome
      ]
