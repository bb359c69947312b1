-- ===== src/Journal/Duplicate.antt =====
-- A failed synchronization in operational_store.cpp: the frame is in the file whole, `append` throws, and
-- the sequence number is used again.
use ctm.Prelude.{
  ℕ, suc, ◌+◌, ◌≤◌, ◌<◌, ◌^◌, ◌≡◌, ◌≢◌, refl, ap, ◌∙◌, true, List, [], ◌∷◌, ◌++◌, Bytes, arith,
  length, take-all, take-append_of, drop-append_of, length-append, ok, err, zero,
}
use ctm.Journal.{
  JsonText, Config, Journal, FilePath, regular, Outcome, completes, stops_after, Cut, Error,
  frame_bounds_invalid, write_failed, Replay,
}
use ctm.Journal.Append.{append, over_limit, write_frame, appended}
use ctm.Journal.Open.{check_header, round, replay, open_and_recover}
use ctm.Journal.Frame.{encode_header, file_magic, encode_frame}
use ctm.Journal.Header.{
  header-magic, header-version, header-flags, header-sequence, header-reserved, length-header,
}
use ctm.Journal.Log.{Stored, frame, frames, AllReadable, length-frame, length-le-frames}
use ctm.Journal.Recovery.{after, start, replay-frames}
use ctm.Journal.Reopen.{whole_file}
use ctm.Journal.Appends.{Tracks, Accepts, stored, append-Tracks, append-stops, grown}

module _ (J : JsonText) (config : Config) where
  -- A header with another number than the expected one.
  wrong_number :
      (x : Stored J) (sequence expected : ℕ)
      → sequence < 2 ^ 64
      → sequence ≢ expected
      → check_header J config expected (encode_header x.synchronize sequence x.kind x.encoded)
        ≡ err frame_bounds_invalid
  unfolding check_header
  wrong_number x sequence expected bound ne = ground (
    arith,
    ne,
    header-sequence x.synchronize sequence x.kind x.encoded bound,
    header-magic x.synchronize sequence x.kind x.encoded,
    header-version x.synchronize sequence x.kind x.encoded,
    header-flags x.synchronize sequence x.kind x.encoded,
    header-reserved x.synchronize sequence x.kind x.encoded,
  )

  round-refused :
      (header rest : Bytes) (s : Replay J) (e : Error)
      → length header ≡ 32
      → check_header J config s.expected_sequence header ≡ err e
      → round J config (header ++ rest) s ≡ err e
  unfolding round
  round-refused header rest s e size bad =
      ground (arith, take-append_of 32 header rest size, drop-append_of 32 header rest size)

  replay-refused :
      (x : Stored J) (sequence fuel : ℕ) (s : Replay J)
      → sequence < 2 ^ 64
      → sequence ≢ s.expected_sequence
      → 0 < fuel
      → replay J config fuel (frame J sequence x) s ≡ err frame_bounds_invalid
  unfolding replay encode_frame
  replay-refused x sequence zero s bound ne f = absurd (omega arith)
  replay-refused x sequence (suc fuel) s bound ne f = rw (
    replay,
    round-refused (encode_header x.synchronize sequence x.kind x.encoded) (x.kind ++ x.encoded) s
        frame_bounds_invalid (length-header x.synchronize sequence x.kind x.encoded)
        (wrong_number x sequence s.expected_sequence bound ne),
  )

  module _ {j : Journal J} {file : FilePath} {xs : List (Stored J)} where
    -- The whole frame is in the file, and the journal does not know it.
    stops_whole :
        {kind : Bytes} {payload : J.Json} {encoded : Bytes} (n : ℕ) (t : Tracks J config j file xs)
        (a : Accepts J config kind payload encoded xs)
        → 32 + length kind + length encoded ≤ n
        → append J j file kind payload (stops_after n) ≡ (
          regular (whole_file J config (xs ++ stored J config kind payload encoded ∷ [])),
          j,
          err write_failed,
        )
    stops_whole {kind} {payload} {encoded} n t a whole =
        let x = stored J config kind payload encoded in
        append-stops J t a n
        ∙ ap (λ l. (regular (whole_file J config xs ++ l), j, err write_failed))
            (take-all n (frame J (1 + length xs) x)
              (omega (arith, whole, length-frame J (1 + length xs) x)))
        ∙ ap (λ l. (regular l, j, err write_failed)) (grown J t a)

    -- An `append` to any file with room writes a frame with the journal's next number.
    append-next :
        {ys : List (Stored J)} {kind : Bytes} {payload : J.Json} {encoded : Bytes}
        (t : Tracks J config j file xs) (b : Accepts J config kind payload encoded ys)
        → append J j (regular (whole_file J config ys)) kind payload completes ≡ (
          regular (
              whole_file J config ys
              ++ frame J j.next_sequence (stored J config kind payload encoded)),
          (appended J j kind payload).0,
          ok j.next_sequence,
        )
    unfolding append over_limit write_frame appended
    append-next t b = ground (arith, t.configured, b.kind_valid, b.dumped, b.fits, b.room)

  module _ (small : config.maximum_payload_bytes < 2 ^ 32)
      (wide : config.maximum_file_bytes < 2 ^ 64) (made : Outcome) (cut : Cut) where
    -- A file whose last frame repeats a number does not open.
    open-duplicate :
        (ys : List (Stored J)) (y : Stored J) (sequence : ℕ)
        → AllReadable J config ys
        → sequence ≤ length ys
        → length (whole_file J config ys ++ frame J sequence y) ≤ config.maximum_file_bytes
        → open_and_recover J config true made cut
            (regular (whole_file J config ys ++ frame J sequence y))
          ≡ (regular (whole_file J config ys ++ frame J sequence y), err frame_bounds_invalid)
    unfolding open_and_recover
    open-duplicate ys y sequence readable old fits =
        let last = frame J sequence y in
        let few : length ys < config.maximum_file_bytes = omega (
          arith,
          fits,
          length-append (whole_file J config ys) last,
          length-append file_magic (frames J 1 ys),
          length-le-frames J 1 ys,
        ) in
        let (fuel', more, e) =
          replay-frames J config small ys (suc (length (whole_file J config ys ++ last))) last
            (start J config small) readable (omega (arith, few, wide)) (omega arith) in
        ground (
          arith,
          fits,
          e,
          replay-refused y sequence fuel' (after J config (start J config small) ys)
              (omega (arith, few, wide, old)) (omega (arith, old)) (omega (arith, more)),
        )

    -- After a write that failed with the whole frame in the file, the next `append` succeeds with
    -- the same number, and from then on the journal cannot be opened.
    pub failed_sync-blocks :
        {j : Journal J} {file : FilePath} {xs : List (Stored J)} {kind kind' : Bytes}
        {payload payload' : J.Json} {encoded encoded' : Bytes} (n : ℕ)
        → Tracks J config j file xs
        → Accepts J config kind payload encoded xs
        → 32 + length kind + length encoded ≤ n
        → Accepts J config kind' payload' encoded' (xs ++ stored J config kind payload encoded ∷ [])
        → let (file₁, j₁, r₁) = append J j file kind payload (stops_after n) in
          let (file₂, j₂, r₂) = append J j₁ file₁ kind' payload' completes in
          (r₁ ≡ err write_failed)
          × (r₂ ≡ ok j.next_sequence)
          × (open_and_recover J config true made cut file₂ ≡ (file₂, err frame_bounds_invalid))
    failed_sync-blocks {j} {file} {xs} {kind} {kind'} {payload} {payload'} {encoded} {encoded'} n t
          a whole b =
        let y = stored J config kind' payload' encoded' in
        rw (stops_whole n t a whole, append-next t b)
          (
            refl,
            refl,
            open-duplicate (xs ++ stored J config kind payload encoded ∷ []) y j.next_sequence
                (append-Tracks J t a).readable
                (omega
                  (arith, t.next, length-append xs (stored J config kind payload encoded ∷ [])))
                (omega (
                  arith,
                  b.room,
                  length-append
                      (whole_file J config (xs ++ stored J config kind payload encoded ∷ []))
                      (frame J j.next_sequence y),
                  length-frame J j.next_sequence y,
                )),
          )
