-- ===== src/Journal/Tests.antt =====
-- Tests of operational_store.cpp's model, and its theorems at concrete inputs.
use ctm.Prelude.{◌-◌, ◌≤◌, ◌≡◌, refl, sym, true, false, [], ◌∷◌, Bytes, codes, some, arith, ok, err}
use ctm.Journal.{
  FilePath, Journal, JsonText, Config, Journal, regular, completes, stops_after, truncates,
  write_failed, frame_bounds_invalid, absent,
}
use ctm.Journal.Append.{append}
use ctm.Journal.Open.{open_and_recover, create_journal}
use ctm.Journal.Frame.{file_magic, valid_kind, crc32c_update, encode_frame, encode_header}
use ctm.Journal.Log.{frames}
use ctm.Journal.Reopen.{reopened}
use ctm.Journal.Appends.{Tracks, Accepts, stored}
use ctm.Journal.Crash.{append_all, append_all-reopen, crash-recovers}
use ctm.Journal.Duplicate.{failed_sync-blocks}
use ctm.Journal.Bounds.{IsValid, size_of, append-size, create-Tracks, reopen-append_all-create}

-- The check value of CRC-32C.
crc32c_check : 0xffff_ffff - crc32c_update 0xffff_ffff (codes "123456789") ≡ 0xe3069283
unfolding crc32c_update
crc32c_check = refl

-- Payloads that are their own text.
abbrev plain : JsonText
plain = record { Json = Bytes; dump = λ text. some text; parse_payload = λ text. some text }

abbrev config : Config
config = record {
  path_empty = false;
  maximum_payload_bytes = 100;
  maximum_file_bytes = 500;
  recent_record_limit = 2;
  synchronize = true;
}

config-IsValid : IsValid plain config
config-IsValid = record {
  named = refl;
  payload_positive = omega arith;
  payload_bounded = omega arith;
  file_bounded = omega arith;
  recent_positive = omega arith;
}

abbrev empty : Journal plain
empty = reopened plain config 0 []

empty-Tracks : Tracks plain config empty (regular file_magic) []
empty-Tracks = (create-Tracks plain config truncates config-IsValid).1

abbrev audit : Bytes
audit = codes "audit"

abbrev login : Bytes
login = codes "{\"user\":1}"

login-Accepts : Accepts plain config audit login login []
unfolding valid_kind frames
login-Accepts = record {
  kind_valid = refl;
  dumped = refl;
  parses = refl;
  fits = omega arith;
  room = omega arith;
}

second-Accepts : Accepts plain config audit login login (stored plain config audit login login ∷ [])
unfolding valid_kind frames encode_frame encode_header
second-Accepts = record {
  kind_valid = refl;
  dumped = refl;
  parses = refl;
  fits = omega arith;
  room = omega arith;
}

append_all-reopen_example :
    let (file', j') =
      append_all plain empty (regular file_magic) ((audit, login) ∷ (audit, []) ∷ []) in
    open_and_recover plain config true completes truncates file'
    ≡ (file', ok (record j' { recovered_tail_bytes = 0 }))
append_all-reopen_example =
    append_all-reopen plain config (omega arith) (omega arith) completes
      ((audit, login) ∷ (audit, []) ∷ []) truncates (λ text e. sym e, (λ text e. sym e, tt))
      empty-Tracks

crash-recovers_example :
    let (file', j', _) = append plain empty (regular file_magic) audit login (stops_after 40) in
    open_and_recover plain config true completes truncates file'
    ≡ (regular file_magic, ok (record j' { recovered_tail_bytes = 40 }))
crash-recovers_example =
    crash-recovers plain config (omega arith) (omega arith) completes 40 empty-Tracks login-Accepts
      (omega arith) (omega arith)

failed_sync-blocks_example :
    let (file₁, j₁, r₁) = append plain empty (regular file_magic) audit login (stops_after 100) in
    let (file₂, j₂, r₂) = append plain j₁ file₁ audit login completes in
    (r₁ ≡ err write_failed)
    × (r₂ ≡ ok empty.next_sequence)
    × (open_and_recover plain config true completes truncates file₂
        ≡ (file₂, err frame_bounds_invalid))
failed_sync-blocks_example =
    failed_sync-blocks plain config (omega arith) (omega arith) completes truncates 100 empty-Tracks
      login-Accepts (omega arith) second-Accepts

append-size_example :
    size_of plain (append plain empty (regular file_magic) audit login (stops_after 50)).0 ≤ 500
append-size_example =
    append-size plain empty (regular file_magic) audit login (stops_after 50) (omega arith)

reopen-append_all-create_example :
    (file : FilePath) × (j : Journal plain) × (create_journal plain config true completes truncates
        absent
      ≡ (file, ok j))
    × (let (file', j') = append_all plain j file ((audit, login) ∷ []) in
        create_journal plain config true completes truncates file'
        ≡ (file', ok (record j' { recovered_tail_bytes = 0 })))
reopen-append_all-create_example =
    reopen-append_all-create plain config ((audit, login) ∷ []) completes truncates
      (record {
        named = refl;
        payload_positive = omega arith;
        payload_bounded = omega arith;
        file_bounded = omega arith;
        recent_positive = omega arith;
      })
      (omega arith) (λ text e. sym e, tt)
