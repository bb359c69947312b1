-- ===== src/Journal/Bounds.antt =====
-- The limits of operational_store.cpp: the size of the file, the number of recent records, and the
-- configuration that a new journal starts from.
use ctm.Prelude.{
  ℕ, ◌^◌, ◌∙◌, ◌*◌, Option-cases, inl, inr, ◌+◌, ◌≤◌, ◌<◌, ◌≡◌, refl, true, false, List, [], ◌∷◌,
  ◌++◌, Bytes, some, arith, length, take, drop, length-append, length-take, length-drop, ok,
}
use ctm.Journal.{
  JsonText, Config, Journal, FilePath, regular, absent, Outcome, completes, cannot_open,
  stops_after, Cut, remember,
}
use ctm.Journal.Append.{append, append_locked, write_frame, over_limit}
use ctm.Journal.Open.{create_journal, open_and_recover, recover, replay, round, opened}
use ctm.Journal.Frame.{encode_frame, encode_header, file_magic}
use ctm.Journal.Header.{length-header}
use ctm.Journal.Log.{frames, remembered}
use ctm.Journal.Reopen.{reopened}
use ctm.Journal.Appends.{Tracks}
use ctm.Journal.Crash.{append_all, AllReadBack, append_all-reopen}

module _ (J : JsonText) where
  open J use {Json, dump, parse_payload}

  abbrev pub size_of : FilePath → ℕ
  size_of (regular contents) = length contents
  size_of _ = 0

  length-encode_frame :
      (j : Journal J) (kind encoded : Bytes)
      → length (encode_frame j.config.synchronize j.next_sequence kind encoded)
        ≡ 32 + length kind + length encoded
  unfolding encode_frame
  length-encode_frame j kind encoded = omega (
    arith,
    length-append (encode_header j.config.synchronize j.next_sequence kind encoded)
        (kind ++ encoded),
    length-append kind encoded,
    length-header j.config.synchronize j.next_sequence kind encoded,
  )

  write_frame-size :
      (j : Journal J) (kind : Bytes) (payload : Json) (encoded : Bytes) (outcome : Outcome)
      (contents : Bytes)
      → over_limit J j.config (32 + length kind + length encoded) (some (length contents)) ≡ false
      → size_of (write_frame J j kind payload encoded outcome contents).0
        ≤ j.config.maximum_file_bytes
  unfolding write_frame over_limit
  write_frame-size j kind payload encoded completes contents h = ground (
    arith,
    length-append contents (encode_frame j.config.synchronize j.next_sequence kind encoded),
    length-encode_frame j kind encoded,
  )
  write_frame-size j kind payload encoded cannot_open contents h = ground arith
  write_frame-size j kind payload encoded (stops_after n) contents h =
      let frame = encode_frame j.config.synchronize j.next_sequence kind encoded in
      ground (
        arith,
        length-append contents (take n frame),
        length-take n frame,
        length-encode_frame j kind encoded,
      )

  -- Whatever the record, and however its write ends, the file stays within its limit.
  pub append-size :
      (j : Journal J) (file : FilePath) (kind : Bytes) (payload : Json) (outcome : Outcome)
      → size_of file ≤ j.config.maximum_file_bytes
      → size_of (append J j file kind payload outcome).0 ≤ j.config.maximum_file_bytes
  unfolding append append_locked
  append-size j (regular contents) kind payload outcome h = elim (Option-cases (dump payload)) [
    | inl undumped ↦ ground arith
    | inr (encoded, dumped) ↦
        ground (arith, write_frame-size j kind payload encoded outcome contents)
  ]
  append-size j file kind payload outcome h = ground arith

  -- The recent records never outgrow their limit.
  pub length-remember :
      {A : Type 0} (limit : ℕ) (recent : List A) (entry : A)
      → 0 < limit
      → length recent ≤ limit
      → length (remember limit recent entry) ≤ limit
  unfolding remember
  length-remember limit recent entry positive h = ground (
    arith,
    length-append recent (entry ∷ []),
    length-append (drop 1 recent) (entry ∷ []),
    length-drop 1 recent,
  )

  -- The configurations that the constructor accepts.
  pub record IsValid (config : Config) : Type 0 where
    pub named : config.path_empty ≡ false
    pub payload_positive : 0 < config.maximum_payload_bytes
    pub payload_bounded : config.maximum_payload_bytes ≤ 256 * 1024 * 1024
    pub file_bounded : 40 ≤ config.maximum_file_bytes
    pub recent_positive : 0 < config.recent_record_limit

  -- A valid configuration and no file: the constructor writes the magic, and the journal is empty.
  pub create-Tracks :
      (config : Config) (cut : Cut)
      → IsValid config
      → (create_journal J config true completes cut absent
          ≡ (regular file_magic, ok (reopened J config 0 [])))
        × Tracks J config (reopened J config 0 []) (regular file_magic) []
  unfolding create_journal open_and_recover recover replay round opened frames remembered
  create-Tracks config cut v = (
    ground (arith, v),
    record {
      configured = refl;
      contents = refl;
      readable = tt;
      next = refl;
      recent = refl;
      fits = omega (arith, v.file_bounded);
    },
  )

  create_journal-IsValid :
      (config : Config) (made : Outcome) (cut : Cut) (file : FilePath)
      → IsValid config
      → create_journal J config true made cut file ≡ open_and_recover J config true made cut file
  unfolding create_journal
  create_journal-IsValid config made cut file v = ground (arith, v)

  -- A life of the journal: with a valid configuration the constructor makes the file, and after any calls of `append` whose
  -- payloads can be read back and whose writes complete, the constructor finds the file unchanged and the
  -- journal as it was.
  pub reopen-append_all-create :
      (config : Config) (requests : List (Bytes × Json)) (made : Outcome) (cut : Cut)
      → IsValid config
      → config.maximum_file_bytes < 2 ^ 64
      → AllReadBack J requests
      → (file : FilePath) × (j : Journal J) × (create_journal J config true completes cut absent
          ≡ (file, ok j))
        × (let (file', j') = append_all J j file requests in
            create_journal J config true made cut file'
            ≡ (file', ok (record j' { recovered_tail_bytes = 0 })))
  reopen-append_all-create config requests made cut v wide back =
      let (made_new, t) = create-Tracks config cut v in
      let (file', j') = append_all J (reopened J config 0 []) (regular file_magic) requests in
      (
        regular file_magic,
        reopened J config 0 [],
        made_new,
        create_journal-IsValid config made cut file' v
            ∙ append_all-reopen J config (omega (arith, v.payload_bounded)) wide made requests cut
                back t,
      )
