-- ===== src/Journal/Log.antt =====
-- What a journal file of operational_store.cpp is meant to hold: the file magic, and the frames of
-- records numbered from 1.
use mathlib.Core.List.{append_assoc, append-nil}
use ctm.Prelude.{
  ℕ, suc, ◌+◌, ◌≤◌, ◌<◌, ◌≡◌, sym, Bool, true, List, [], ◌∷◌, ◌++◌, Bytes, some, arith, length,
  length-append,
}
use ctm.Journal.{JsonText, Config, remember, JournalRecord}
use ctm.Journal.Frame.{valid_kind, encode_frame, encode_header}
use ctm.Journal.Header.{length-header}

module _ (J : JsonText) where
  open J use {Json, dump, parse_payload}

  -- A record as it was written: with the flag of its frame and the text of its payload.
  pub record Stored : Type 0 where
    pub synchronize : Bool
    pub kind : Bytes
    pub encoded : Bytes
    pub payload : Json

  abbrev pub frame : ℕ → Stored → Bytes
  frame sequence x = encode_frame x.synchronize sequence x.kind x.encoded

  unfoldable pub frames : ℕ → List Stored → Bytes
  frames sequence [] = []
  frames sequence (x ∷ xs) = frame sequence x ++ frames (suc sequence) xs

  abbrev pub entry : ℕ → Stored → JournalRecord J
  entry sequence x = record { sequence = sequence; kind = x.kind; payload = x.payload }

  -- The recent records after reading the records from `sequence` on.
  unfoldable pub remembered : ℕ → ℕ → List (JournalRecord J) → List Stored → List (JournalRecord J)
  remembered limit sequence recent [] = recent
  remembered limit sequence recent (x ∷ xs) =
      remembered limit (suc sequence) (remember limit recent (entry sequence x)) xs

  -- What the reader demands of a record.
  pub record IsReadable (config : Config) (x : Stored) : Type 0 where
    pub kind_valid : valid_kind x.kind ≡ true
    pub fits : length x.encoded ≤ config.maximum_payload_bytes
    pub parses : parse_payload x.encoded ≡ some x.payload

  abbrev pub AllReadable : Config → List Stored → Type 0
  AllReadable config [] = Unit
  AllReadable config (x ∷ xs) = IsReadable config x × AllReadable config xs

  pub valid_kind_bounds :
      (kind : Bytes) → valid_kind kind ≡ true → (0 < length kind) × (length kind ≤ 64)
  unfolding valid_kind
  valid_kind_bounds kind h = ground arith

  pub length-frame :
      (sequence : ℕ) (x : Stored)
      → length (frame sequence x) ≡ 32 + length x.kind + length x.encoded
  unfolding encode_frame
  length-frame sequence x = omega (
    arith,
    length-append (encode_header x.synchronize sequence x.kind x.encoded) (x.kind ++ x.encoded),
    length-append x.kind x.encoded,
    length-header x.synchronize sequence x.kind x.encoded,
  )

  pub frames-append :
      (sequence : ℕ) (xs : List Stored) (x : Stored)
      → frames sequence (xs ++ x ∷ []) ≡ frames sequence xs ++ frame (sequence + length xs) x
  unfolding frames
  frames-append sequence [] x =
      rw (append-nil (frame sequence x))
        (let same : sequence + 0 ≡ sequence = omega arith in rw same)
  frames-append sequence (y ∷ ys) x =
      let same : sequence + suc (length ys) ≡ suc sequence + length ys = omega arith in
      rw (frames-append (suc sequence) ys x, same)
        (sym (append_assoc (frame sequence y) (frames (suc sequence) ys) _))

  pub length-le-frames : (sequence : ℕ) (xs : List Stored) → length xs ≤ length (frames sequence xs)
  unfolding frames
  length-le-frames sequence [] = omega arith
  length-le-frames sequence (x ∷ xs) = omega (
    arith,
    length-append (frame sequence x) (frames (suc sequence) xs),
    length-frame sequence x,
    length-le-frames (suc sequence) xs,
  )
