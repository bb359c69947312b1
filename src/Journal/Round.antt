-- ===== src/Journal/Round.antt =====
-- One round of the replay loop of operational_store.cpp, on a whole frame and on one that is cut off.
use mathlib.Core.List.{append_assoc}
use ctm.Prelude.{
  ℕ, suc, ◌+◌, ◌-◌, ◌≤◌, ◌<◌, ◌^◌, ◌≡◌, refl, ap, ◌∙◌, inl, inr, ltb, ◌++◌, Bytes, Option, none,
  some, arith, length, take, drop, take-append_of, drop-append_of, take-all, take-append_past,
  Bool-cases, ok, length-append, length-take, length-drop,
}
use ctm.Journal.{JsonText, Config, remember, JournalRecord, Replay, torn}
use ctm.Journal.Open.{check_header, check_body, read_body, advance, stop, again, round, replay}
use ctm.Journal.Frame.{get_u16, get_u32, get_u64, encode_header, encode_frame}
use ctm.Journal.Header.{
  header-magic, header-version, header-kind, header-payload, header-flags, header-sequence,
  header-crc, header-reserved, length-header,
}
use ctm.Journal.Log.{Stored, frame, entry, IsReadable, valid_kind_bounds, length-frame}

module _ (J : JsonText) (config : Config) (s : Replay J) where
  -- A round over a header that passes its checks.
  round-read :
      (header after : Bytes) (body : Option (JournalRecord J × Bytes))
      → length header ≡ 32
      → check_header J config s.expected_sequence header ≡ ok tt
      → read_body J header after ≡ ok body
      → round J config (header ++ after) s ≡ elim body [
        | none ↦ ok (stop (torn s))
        | some (entry, rest) ↦ ok (again rest (advance J config header entry s))
      ]
  unfolding round
  round-read header after body size checked read =
      ground (arith, take-append_of 32 header after size, drop-append_of 32 header after size)

  -- A round over less than a header.
  round-short :
      (input : Bytes)
      → 0 < length input
      → length input < 32
      → round J config input s ≡ ok (stop (torn s))
  unfolding round
  round-short input some_bytes short = ground (arith, take-all 32 input (omega arith))

module _ (J : JsonText) (config : Config) (small : config.maximum_payload_bytes < 2 ^ 32) where
  module _ (x : Stored J) (sequence : ℕ) (bound : sequence < 2 ^ 64)
      (readable : IsReadable J config x) where
    abbrev header : Bytes
    header = encode_header x.synchronize sequence x.kind x.encoded

    kind_size : get_u16 header 6 ≡ length x.kind
    kind_size =
        header-kind x.synchronize sequence x.kind x.encoded
          (omega (arith, valid_kind_bounds J x.kind readable.kind_valid))

    payload_size : get_u32 header 8 ≡ length x.encoded
    payload_size =
        header-payload x.synchronize sequence x.kind x.encoded (omega (arith, readable.fits))

    number : get_u64 header 16 ≡ sequence
    number = header-sequence x.synchronize sequence x.kind x.encoded bound

    header_checked : check_header J config sequence header ≡ ok tt
    unfolding check_header
    header_checked = ground (
      arith,
      kind_size,
      payload_size,
      number,
      readable.fits,
      valid_kind_bounds J x.kind readable.kind_valid,
      header-magic x.synchronize sequence x.kind x.encoded,
      header-version x.synchronize sequence x.kind x.encoded,
      header-flags x.synchronize sequence x.kind x.encoded,
      header-reserved x.synchronize sequence x.kind x.encoded,
    )

    body_checked : check_body J header x.kind x.encoded ≡ ok (entry J sequence x)
    unfolding check_body
    body_checked = ground (
      arith,
      number,
      readable.kind_valid,
      readable.parses,
      header-crc x.synchronize sequence x.kind x.encoded,
    )

    body_read :
        (rest : Bytes)
        → read_body J header (x.kind ++ (x.encoded ++ rest)) ≡ ok (some (entry J sequence x, rest))
    unfolding read_body
    body_read rest = ground (
      arith,
      kind_size,
      payload_size,
      body_checked,
      take-append_of (length x.kind) x.kind (x.encoded ++ rest) refl,
      drop-append_of (length x.kind) x.kind (x.encoded ++ rest) refl,
      take-append_of (length x.encoded) x.encoded rest refl,
      drop-append_of (length x.encoded) x.encoded rest refl,
    )

    frame-split :
        (rest : Bytes) → frame J sequence x ++ rest ≡ header ++ (x.kind ++ (x.encoded ++ rest))
    unfolding encode_frame
    frame-split rest =
        append_assoc header (x.kind ++ x.encoded) rest
        ∙ ap (◌++◌ header) (append_assoc x.kind x.encoded rest)

    -- A whole frame is read back, and the loop goes on after it.
    pub replay-frame :
        (fuel : ℕ) (rest : Bytes) (s : Replay J)
        → s.expected_sequence ≡ sequence
        → replay J config (suc fuel) (frame J sequence x ++ rest) s
          ≡ replay J config fuel rest (advance J config header (entry J sequence x) s)
    unfolding replay
    replay-frame fuel rest s e = rw (
      frame-split rest,
      replay,
      round-read J config s header (x.kind ++ (x.encoded ++ rest)) _
          (length-header x.synchronize sequence x.kind x.encoded) (rw e header_checked)
          (body_read rest),
    )

    pub advance-eq :
        (s : Replay J)
        → s.expected_sequence ≡ sequence
        → advance J config header (entry J sequence x) s ≡ record {
          last_complete = s.last_complete + length (frame J sequence x);
          expected_sequence = suc sequence;
          recent = remember config.recent_record_limit s.recent (entry J sequence x);
        }
    unfolding advance
    advance-eq s e = ground (arith, e, kind_size, payload_size, length-frame J sequence x)

    -- A body that is cut off is not read.
    body_torn :
        (input : Bytes)
        → length input < length x.kind + length x.encoded
        → read_body J header input ≡ ok none
    unfolding read_body
    body_torn input h = ground (
      arith,
      kind_size,
      payload_size,
      length-take (length x.kind) input,
      length-drop (length x.kind) input,
      length-take (length x.encoded) (drop (length x.kind) input),
    )

    header_and_more :
        (k : ℕ)
        → 32 ≤ k
        → take k (frame J sequence x) ≡ header ++ take (k - 32) (x.kind ++ x.encoded)
    unfolding encode_frame
    header_and_more k h =
        let split : k ≡ length header + (k - 32) =
          omega (arith, length-header x.synchronize sequence x.kind x.encoded) in
        ap (λ (n : ℕ). take n (header ++ (x.kind ++ x.encoded))) split
        ∙ take-append_past header (x.kind ++ x.encoded) (k - 32)

    -- So is a frame of which only the first `k` bytes are in the file.
    pub replay-torn :
        (fuel k : ℕ) (s : Replay J)
        → s.expected_sequence ≡ sequence
        → 0 < k
        → k < length (frame J sequence x)
        → replay J config (suc fuel) (take k (frame J sequence x)) s ≡ ok (torn s)
    unfolding replay
    replay-torn fuel k s e some_bytes short = elim (Bool-cases (ltb k 32)) [
      | inl early ↦ rw (
        replay,
        round-short J config s (take k (frame J sequence x))
            (ground (arith, length-take k (frame J sequence x)))
            (ground (arith, length-take k (frame J sequence x))),
      )
      | inr late ↦ rw (header_and_more k (ground arith)) (
          rw (
            replay,
            round-read J config s header (take (k - 32) (x.kind ++ x.encoded)) none
                (length-header x.synchronize sequence x.kind x.encoded) (rw e header_checked)
                (body_torn (take (k - 32) (x.kind ++ x.encoded)) (
                  ground (
                    arith,
                    length-take (k - 32) (x.kind ++ x.encoded),
                    length-append x.kind x.encoded,
                    length-frame J sequence x,
                  ))),
          ))
    ]
