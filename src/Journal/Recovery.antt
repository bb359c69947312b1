-- ===== src/Journal/Recovery.antt =====
-- Opening a journal file of operational_store.cpp that holds whole frames, and perhaps the beginning of
-- one more.
use mathlib.Core.List.{append_assoc, append-nil}
use ctm.Prelude.{
  ℕ, zero, suc, ◌+◌, ◌≤◌, ◌<◌, ◌^◌, ◌≡◌, refl, ap, sym, ◌∙◌, List, [], ◌∷◌, ◌++◌, Bytes, arith,
  length, take, ok, length-append,
}
use ctm.Journal.{JsonText, Config, Replay, at_end, torn, remember}
use ctm.Journal.Open.{round, replay}
use ctm.Journal.Log.{
  Stored, frame, frames, entry, remembered, IsReadable, AllReadable, length-frame,
}
use ctm.Journal.Round.{replay-frame, advance-eq, replay-torn}

module _ (J : JsonText) (config : Config) where
  -- The variables of the loop after the frames of `xs`.
  abbrev pub after : Replay J → List (Stored J) → Replay J
  after s xs = record {
    last_complete = s.last_complete + length (frames J s.expected_sequence xs);
    expected_sequence = s.expected_sequence + length xs;
    recent = remembered J config.recent_record_limit s.expected_sequence s.recent xs;
  }

  after-nil : (s : Replay J) → after s [] ≡ s
  unfolding frames remembered
  after-nil s = ground arith

  after-cons :
      (s : Replay J) (x : Stored J) (xs : List (Stored J))
      → after
          (record {
            last_complete = s.last_complete + length (frame J s.expected_sequence x);
            expected_sequence = suc s.expected_sequence;
            recent = remember config.recent_record_limit s.recent (entry J s.expected_sequence x);
          })
          xs
        ≡ after s (x ∷ xs)
  unfolding frames remembered
  after-cons s x xs =
      ground (
        arith,
        length-append (frame J s.expected_sequence x) (frames J (suc s.expected_sequence) xs),
      )

  module _ (small : config.maximum_payload_bytes < 2 ^ 32) where
    -- The loop reads the frames one by one, and has fuel left for what follows them.
    pub replay-frames :
        (xs : List (Stored J)) (fuel : ℕ) (tail : Bytes) (s : Replay J)
        → AllReadable J config xs
        → s.expected_sequence + length xs ≤ 2 ^ 64
        → length (frames J s.expected_sequence xs ++ tail) < fuel
        → (fuel' : ℕ) × (length tail < fuel')
          × (replay J config fuel (frames J s.expected_sequence xs ++ tail) s
              ≡ replay J config fuel' tail (after s xs))
    unfolding frames
    replay-frames [] fuel tail s h b f =
        (fuel, f, ap (replay J config fuel tail) (sym (after-nil s)))
    replay-frames (x ∷ xs) zero tail s h b f = absurd (omega arith)
    replay-frames (x ∷ xs) (suc fuel) tail s h b f =
        let first = frame J s.expected_sequence x in
        let others = frames J (suc s.expected_sequence) xs in
        let s' : Replay J = record {
          last_complete = s.last_complete + length first;
          expected_sequence = suc s.expected_sequence;
          recent = remember config.recent_record_limit s.recent (entry J s.expected_sequence x);
        } in
        let shorter : length (others ++ tail) < fuel = omega (
          arith,
          f,
          length-append (first ++ others) tail,
          length-append first others,
          length-append others tail,
          length-frame J s.expected_sequence x,
        ) in
        let (fuel', enough, rest) = replay-frames xs fuel tail s' h.1 (omega arith) shorter in
        (
          fuel',
          enough,
          ap (λ l. replay J config (suc fuel) l s) (append_assoc first others tail)
              ∙ replay-frame J config small x s.expected_sequence (omega arith) h.0 fuel
                  (others ++ tail) s refl
              ∙ ap (replay J config fuel (others ++ tail))
                  (advance-eq J config small x s.expected_sequence (omega arith) h.0 s refl)
              ∙ rest
              ∙ ap (replay J config fuel' tail) (after-cons s x xs),
        )

    -- Before the first frame.
    abbrev pub start : Replay J
    start = record { last_complete = 8; expected_sequence = 1; recent = [] }

    replay-end : (fuel : ℕ) (s : Replay J) → 0 < fuel → replay J config fuel [] s ≡ ok (at_end s)
    unfolding replay round
    replay-end zero s h = absurd (omega arith)
    replay-end (suc fuel) s h = refl

    replay-cut :
        (x : Stored J) (k fuel : ℕ) (s : Replay J)
        → s.expected_sequence < 2 ^ 64
        → IsReadable J config x
        → 0 < fuel
        → 0 < k
        → k < length (frame J s.expected_sequence x)
        → replay J config fuel (take k (frame J s.expected_sequence x)) s ≡ ok (torn s)
    replay-cut x k zero s b r h some_bytes short = absurd (omega arith)
    replay-cut x k (suc fuel) s b r h some_bytes short =
        replay-torn J config small x s.expected_sequence b r fuel k s refl some_bytes short

    module _ (xs : List (Stored J)) (readable : AllReadable J config xs)
        (few : 1 + length xs < 2 ^ 64) (fuel : ℕ) where
      -- The loop on whole frames.
      pub replay-whole :
          length (frames J 1 xs) < fuel
          → replay J config fuel (frames J 1 xs) start ≡ ok (at_end (after start xs))
      replay-whole enough =
          let (fuel', more, e) =
            replay-frames xs fuel [] start readable (omega arith)
              (omega (arith, enough, length-append (frames J 1 xs) [])) in
          ap (λ l. replay J config fuel l start) (sym (append-nil (frames J 1 xs)))
          ∙ e
          ∙ replay-end fuel' (after start xs) more

      -- The loop on whole frames, and the first `k` bytes of the frame after them.
      pub replay-partial :
          (x : Stored J) (k : ℕ)
          → IsReadable J config x
          → 0 < k
          → k < length (frame J (1 + length xs) x)
          → length (frames J 1 xs ++ take k (frame J (1 + length xs) x)) < fuel
          → replay J config fuel (frames J 1 xs ++ take k (frame J (1 + length xs) x)) start
            ≡ ok (torn (after start xs))
      replay-partial x k r some_bytes short enough =
          let (fuel', more, e) =
            replay-frames xs fuel (take k (frame J (1 + length xs) x)) start readable (omega arith)
              enough in
          e ∙ replay-cut x k fuel' (after start xs) few r (omega arith) some_bytes short
