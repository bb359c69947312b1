-- ===== src/Journal/Reopen.antt =====
-- Opening a file of whole frames with operational_store.cpp, and one that was cut off while a frame
-- was being written.
use ctm.Prelude.{
  ℕ, suc, ◌+◌, ◌≤◌, ◌<◌, ◌^◌, ◌≡◌, true, List, [], ◌++◌, Bytes, arith, length, take, take-append_of,
  ok, length-append, length-take,
}
use ctm.Journal.{JsonText, Config, Journal, regular, Cut, truncates, Outcome}
use ctm.Journal.Open.{opened, open_and_recover}
use ctm.Journal.Frame.{file_magic}
use ctm.Journal.Log.{Stored, frame, frames, remembered, IsReadable, AllReadable, length-le-frames}
use ctm.Journal.Recovery.{replay-whole, replay-partial}

module _ (J : JsonText) (config : Config) where
  -- The journal that reading `xs` builds.
  abbrev pub reopened : ℕ → List (Stored J) → Journal J
  reopened tail xs = record {
    config = config;
    next_sequence = 1 + length xs;
    recovered_tail_bytes = tail;
    recent = remembered J config.recent_record_limit 1 [] xs;
  }

  -- The bytes of a file with the records `xs`.
  abbrev pub whole_file : List (Stored J) → Bytes
  whole_file xs = file_magic ++ frames J 1 xs

  module _ (small : config.maximum_payload_bytes < 2 ^ 32)
      (wide : config.maximum_file_bytes < 2 ^ 64) (xs : List (Stored J))
      (readable : AllReadable J config xs) (made : Outcome) where
    -- A file of whole frames opens: every record is counted, the file stays as it is.
    pub open-whole :
        (cut : Cut)
        → length (whole_file xs) ≤ config.maximum_file_bytes
        → open_and_recover J config true made cut (regular (whole_file xs))
          ≡ (regular (whole_file xs), ok (reopened 0 xs))
    unfolding open_and_recover opened
    open-whole cut fits = ground (
      arith,
      fits,
      length-append file_magic (frames J 1 xs),
      replay-whole J config small xs readable (omega (arith, fits, length-le-frames J 1 xs))
          (suc (length (whole_file xs))) (omega arith),
    )

    -- A file that ends in the first `k` bytes of one more frame opens too: the tail is cut off,
    -- and nothing else is lost.
    pub open-torn :
        (x : Stored J) (k : ℕ)
        → IsReadable J config x
        → 0 < k
        → k < length (frame J (1 + length xs) x)
        → length (whole_file xs) + k ≤ config.maximum_file_bytes
        → open_and_recover J config true made truncates
            (regular (whole_file xs ++ take k (frame J (1 + length xs) x)))
          ≡ (regular (whole_file xs), ok (reopened k xs))
    unfolding open_and_recover opened
    open-torn x k r some_bytes short fits =
        let tail = take k (frame J (1 + length xs) x) in
        ground (
          arith,
          fits,
          length-append file_magic (frames J 1 xs),
          length-append (frames J 1 xs) tail,
          length-take k (frame J (1 + length xs) x),
          take-append_of (8 + length (frames J 1 xs)) (whole_file xs) tail
              (omega (arith, length-append file_magic (frames J 1 xs))),
          replay-partial J config small xs readable (omega (arith, fits, length-le-frames J 1 xs))
              (suc (length (whole_file xs ++ tail))) x k r some_bytes short (omega arith),
        )
