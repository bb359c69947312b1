-- ===== src/Journal/Crash.antt =====
-- What a restart finds after a history of `append` calls of operational_store.cpp, and after a write
-- that failed half-way.
use ctm.Prelude.{
  ℕ, ◌+◌, ◌<◌, ◌^◌, ◌≡◌, ap, ◌∙◌, ◌⊎◌, inl, inr, true, Bool-cases, Option-cases, List, [], ◌∷◌,
  ◌++◌, Bytes, some, arith, length, ltb, ok, err,
}
use ctm.Journal.{
  JsonText, Config, Journal, FilePath, regular, Outcome, completes, stops_after, Cut, truncates,
  Error, kind_invalid, dump_failed, payload_too_large, file_limit_reached,
}
use ctm.Journal.Append.{append, over_limit}
use ctm.Journal.Open.{open_and_recover}
use ctm.Journal.Frame.{valid_kind}
use ctm.Journal.Log.{Stored, length-frame}
use ctm.Journal.Reopen.{whole_file, open-whole, open-torn}
use ctm.Journal.Appends.{
  Tracks, Accepts, stored, next_journal, append-completes, append-Tracks, append-stops,
}

module _ (J : JsonText) where
  open J use {Json, dump, parse_payload}

  -- Calls of `append` whose writes all complete.
  pub append_all : Journal J → FilePath → List (Bytes × Json) → FilePath × Journal J
  append_all j file [] = (file, j)
  append_all j file ((kind, payload) ∷ requests) =
      let (file', j', _) = append J j file kind payload completes in append_all j' file' requests

  -- The text of each payload can be read back.
  abbrev pub ReadBack : Json → Type 0
  ReadBack payload = (text : Bytes) → dump payload ≡ some text → parse_payload text ≡ some payload

  abbrev pub AllReadBack : List (Bytes × Json) → Type 0
  AllReadBack [] = Unit
  AllReadBack ((kind, payload) ∷ requests) = ReadBack payload × AllReadBack requests

  module _ (config : Config) where
    -- A call that is refused changes nothing.
    refused :
        {j : Journal J} {file : FilePath} {xs : List (Stored J)} (kind : Bytes) (payload : Json)
        → Tracks J config j file xs
        → ReadBack payload
        → ((e : Error) × (append J j file kind payload completes ≡ (file, j, err e)))
          ⊎ ((encoded : Bytes) × Accepts J config kind payload encoded xs)
    unfolding append over_limit
    refused {j} {file} {xs} kind payload t back = elim (Bool-cases (valid_kind kind)) [
      | inr invalid ↦ inl (kind_invalid, ground arith)
      | inl valid ↦ elim (Option-cases (dump payload)) [
        | inl undumped ↦ inl (dump_failed, ground arith)
        | inr (encoded, dumped) ↦
            elim (Bool-cases (ltb config.maximum_payload_bytes (length encoded))) [
              | inl large ↦ inl (payload_too_large, ground (arith, t.configured))
              | inr fits ↦
                  elim (Bool-cases (
                    over_limit J config (32 + length kind + length encoded)
                      (some (length (whole_file J config xs))))) [
                        | inl over ↦
                            inl (file_limit_reached, ground (arith, t.configured, t.contents))
                        | inr room ↦ inr (
                          encoded,
                          record {
                            kind_valid = valid;
                            dumped = dumped;
                            parses = back encoded dumped;
                            fits = ground arith;
                            room = ground arith;
                          },
                        )
                      ]
            ]
      ]
    ]

    -- After any calls the journal and the file agree on some records.
    append_all-Tracks :
        (requests : List (Bytes × Json)) {j : Journal J} {file : FilePath} {xs : List (Stored J)}
        → AllReadBack requests
        → Tracks J config j file xs
        → (ys : List (Stored J)) × Tracks J config
            (append_all j file requests).1
            (append_all j file requests).0
            ys
    unfolding append_all
    append_all-Tracks [] {xs = xs} back t = (xs, t)
    append_all-Tracks ((kind, payload) ∷ requests) {j} {file} {xs} back t =
        elim (refused kind payload t back.0) [
          | inl (e, same) ↦
              rw (same, append_all) (append_all-Tracks requests {j = j} {file = file} back.1 t)
          | inr (encoded, a) ↦
              rw (append-completes J t a, append_all)
                (append_all-Tracks requests {j = next_journal J t a}
                  {file = regular
                    (whole_file J config (xs ++ stored J config kind payload encoded ∷ []))}
                  back.1 (append-Tracks J t a))
        ]

    module _ (small : config.maximum_payload_bytes < 2 ^ 32)
        (wide : config.maximum_file_bytes < 2 ^ 64) (made : Outcome) where
      reopen-Tracks :
          {j : Journal J} {file : FilePath} {xs : List (Stored J)} (cut : Cut)
          → Tracks J config j file xs
          → open_and_recover J config true made cut file
            ≡ (file, ok (record j { recovered_tail_bytes = 0 }))
      reopen-Tracks {xs = xs} cut t =
          ap (open_and_recover J config true made cut) t.contents
          ∙ open-whole J config small wide xs t.readable made cut t.fits
          ∙ ground (arith, t.contents, t.configured, t.next, t.recent)

      -- A restart after any calls finds the file unchanged and the journal as it was.
      pub append_all-reopen :
          (requests : List (Bytes × Json)) {j : Journal J} {file : FilePath} {xs : List (Stored J)}
          (cut : Cut)
          → AllReadBack requests
          → Tracks J config j file xs
          → let (file', j') = append_all j file requests in
            open_and_recover J config true made cut file'
            ≡ (file', ok (record j' { recovered_tail_bytes = 0 }))
      append_all-reopen requests cut back t =
          let (ys, t') = append_all-Tracks requests back t in reopen-Tracks cut t'

      -- A crash in the middle of a write loses that write alone.
      pub crash-recovers :
          {j : Journal J} {file : FilePath} {xs : List (Stored J)} {kind : Bytes} {payload : Json}
          {encoded : Bytes} (n : ℕ)
          → Tracks J config j file xs
          → Accepts J config kind payload encoded xs
          → 0 < n
          → n < 32 + length kind + length encoded
          → let (file', j', _) = append J j file kind payload (stops_after n) in
            open_and_recover J config true made truncates file'
            ≡ (file, ok (record j' { recovered_tail_bytes = n }))
      crash-recovers {j} {file} {xs} {kind} {payload} {encoded} n t a some_bytes short =
          let x = stored J config kind payload encoded in
          rw (append-stops J t a n) (
            open-torn J config small wide xs t.readable made x n
              (record { kind_valid = a.kind_valid; fits = a.fits; parses = a.parses }) some_bytes
              (omega (arith, length-frame J (1 + length xs) x)) (omega (arith, a.room))
            ∙ ground (arith, t.contents, t.configured, t.next, t.recent))
