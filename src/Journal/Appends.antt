-- ===== src/Journal/Appends.antt =====
-- `append` of operational_store.cpp on a journal that agrees with its file.

use ctm.Prelude.{
  ℕ, suc, ◌+◌, ◌≤◌, ◌≡◌, refl, ap, sym, ◌∙◌, true, List, [], ◌∷◌, ◌++◌, Bytes, some, arith, length,
  take, length-append, ok, err,
}
use ctm.Journal.{
  JsonText, Config, Journal, JournalRecord, FilePath, regular, Outcome, completes, stops_after,
  write_failed, remember,
}
use ctm.Journal.Append.{append, write_frame, over_limit}
use ctm.Journal.Frame.{file_magic, valid_kind, encode_frame}
use ctm.Journal.Log.{
  Stored, frame, entry, remembered, IsReadable, AllReadable, length-frame, frames-append,
}
use ctm.Journal.Reopen.{whole_file}

module _ (J : JsonText) where
  open J use {Json, dump, parse_payload}

  -- The journal `j` and the file agree that the records are `xs`.
  pub record Tracks (config : Config) (j : Journal J) (file : FilePath) (xs : List (Stored J))
      : Type 0 where
    pub configured : j.config ≡ config
    pub contents : file ≡ regular (whole_file J config xs)
    pub readable : AllReadable J config xs
    pub next : j.next_sequence ≡ 1 + length xs
    pub recent : j.recent ≡ remembered J config.recent_record_limit 1 [] xs
    pub fits : length (whole_file J config xs) ≤ config.maximum_file_bytes

  -- The record that an `append` adds.
  abbrev pub stored : Config → Bytes → Json → Bytes → Stored J
  stored config kind payload encoded = record {
    synchronize = config.synchronize;
    kind = kind;
    encoded = encoded;
    payload = payload;
  }

  -- What `append` demands of a record, and what the reader will demand of it.
  pub record Accepts (config : Config) (kind : Bytes) (payload : Json) (encoded : Bytes)
      (xs : List (Stored J)) : Type 0 where
    pub kind_valid : valid_kind kind ≡ true
    pub dumped : dump payload ≡ some encoded
    pub parses : parse_payload encoded ≡ some payload
    pub fits : length encoded ≤ config.maximum_payload_bytes
    pub room :
        length (whole_file J config xs) + (32 + length kind + length encoded)
        ≤ config.maximum_file_bytes

  pub AllReadable-append :
      (config : Config) (xs : List (Stored J)) (x : Stored J)
      → AllReadable J config xs
      → IsReadable J config x
      → AllReadable J config (xs ++ x ∷ [])
  AllReadable-append config [] x h r = (r, tt)
  AllReadable-append config (y ∷ ys) x h r = (h.0, AllReadable-append config ys x h.1 r)

  remembered-append :
      (limit sequence : ℕ) (recent : List (JournalRecord J)) (xs : List (Stored J)) (x : Stored J)
      → remembered J limit sequence recent (xs ++ x ∷ [])
        ≡ remember limit (remembered J limit sequence recent xs) (entry J (sequence + length xs) x)
  unfolding remembered
  remembered-append limit sequence recent [] x =
      let same : sequence + 0 ≡ sequence = omega arith in rw same
  remembered-append limit sequence recent (y ∷ ys) x =
      let same : sequence + suc (length ys) ≡ suc sequence + length ys = omega arith in
      rw same
        (remembered-append limit (suc sequence) (remember limit recent (entry J sequence y)) ys x)

  module _ {config : Config} {j : Journal J} {file : FilePath} {xs : List (Stored J)}
      (t : Tracks config j file xs) {kind : Bytes} {payload : Json} {encoded : Bytes}
      (a : Accepts config kind payload encoded xs) where
    abbrev x : Stored J
    x = stored config kind payload encoded

    -- The writes are reached, with the frame of the next record.
    append-writes :
        (outcome : Outcome)
        → append J j file kind payload outcome
          ≡ write_frame J j kind payload encoded outcome (whole_file J config xs)
    unfolding append over_limit
    append-writes outcome =
        ground (arith, t.configured, t.contents, a.kind_valid, a.dumped, a.fits, a.room)

    next_frame :
        encode_frame j.config.synchronize j.next_sequence kind encoded ≡ frame J (1 + length xs) x
    next_frame = rw (t.configured, t.next)

    pub grown :
        whole_file J config xs ++ frame J (1 + length xs) x ≡ whole_file J config (xs ++ x ∷ [])
    grown = ap (◌++◌ file_magic) (sym (frames-append J 1 xs x))

    -- The journal after an `append` that completed.
    abbrev pub next_journal : Journal J
    next_journal = record j {
      next_sequence = suc j.next_sequence;
      recent =
          remember j.config.recent_record_limit j.recent
            (record { sequence = j.next_sequence; kind = kind; payload = payload });
    }

    -- An `append` that completes returns the next number, and adds exactly that record.
    pub append-completes :
        append J j file kind payload completes
        ≡ (regular (whole_file J config (xs ++ x ∷ [])), next_journal, ok (1 + length xs))
    unfolding write_frame
    append-completes = append-writes completes ∙ ground (arith, grown, next_frame, t.next)

    length-grown :
        length (whole_file J config (xs ++ x ∷ []))
        ≡ length (whole_file J config xs) + (32 + length kind + length encoded)
    length-grown = omega (
      arith,
      ap length (sym grown),
      length-append (whole_file J config xs) (frame J (1 + length xs) x),
      length-frame J (1 + length xs) x,
    )

    x-IsReadable : IsReadable J config x
    x-IsReadable = record { kind_valid = a.kind_valid; fits = a.fits; parses = a.parses }

    pub append-Tracks :
        Tracks config next_journal (regular (whole_file J config (xs ++ x ∷ []))) (xs ++ x ∷ [])
    append-Tracks = record {
      configured = t.configured;
      contents = refl;
      readable = AllReadable-append config xs x t.readable x-IsReadable;
      next = omega (arith, t.next, length-append xs (x ∷ []));
      recent =
          rw (t.configured, t.recent, t.next)
            (sym (remembered-append config.recent_record_limit 1 [] xs x));
      fits = omega (arith, length-grown, a.room);
    }

    -- An `append` whose writes fail leaves the journal as it was, and the first `n` bytes of the
    -- frame in the file.
    pub append-stops :
        (n : ℕ)
        → append J j file kind payload (stops_after n) ≡ (
          regular (whole_file J config xs ++ take n (frame J (1 + length xs) x)),
          j,
          err write_failed,
        )
    unfolding write_frame
    append-stops n = append-writes (stops_after n) ∙ ground (arith, next_frame)
