-- ===== src/Telemetry/Fresh.antt =====
-- When `snapshot` of telemetry_store.cpp calls the whole plant good.
use ctm.Prelude.{
  ℕ, ◌+◌, ◌-◌, min, ◌≤◌, ◌≡◌, inl, inr, true, List, [], ◌∷◌, Bytes, Bytes-discrete, some,
  Option-cases, arith, All, find, assign, Result-cases, ok,
}
use ctm.Json.{JsonLibrary}
use ctm.Model.{Model, Tag, index_model}
use ctm.Telemetry.{Quality, good, Current, Store}
use ctm.Telemetry.View.{
  is_good, Reading, Counts, Snapshot, aged, reading, count_reading, readings, overall, alarm_states,
  show, snapshot,
}

module _ (J : JsonLibrary) (s : Store J) (generation now : ℕ) where
  open J use {Json, Double}

  -- The store has a value of the tag for this generation, received as good, and not too old.
  pub record Fresh (tag : Tag) : Type 0 where
    pub current : Current J
    pub stored : find Bytes-discrete tag.id s.values ≡ some current
    pub same_generation : s.context_generation ≡ generation
    pub received_good : current.sample.quality ≡ good
    pub recent : now ≤ current.received_timestamp_ms + s.stale_after_ms

  aged-good :
      (age : ℕ) (q : Quality)
      → is_good (aged J s age q) ≡ true
      → (q ≡ good) × (age ≤ s.stale_after_ms)
  unfolding aged
  aged-good age good h = ground arith
  aged-good age q h = ground arith

  reading-Fresh : (tag : Tag) → is_good (reading J s generation now tag).quality ≡ true → Fresh tag
  unfolding reading
  reading-Fresh tag h = elim (Option-cases (find Bytes-discrete tag.id s.values)) [
    | inl missing ↦ absurd (ground (arith, missing))
    | inr (current, stored) ↦
        let age = now - min now current.received_timestamp_ms in
        let (was_good, young) = aged-good age current.sample.quality (ground (arith, stored)) in
        record {
          current = current;
          stored = stored;
          same_generation = ground (arith, stored);
          received_good = was_good;
          recent = omega (arith, young);
        }
  ]

  -- Nothing stale or unavailable was counted only when every reading was good.
  readings-good :
      (tags : List Tag) (counts : Counts J) (values : List (Bytes × Reading J))
      → let final = (readings J s generation now tags counts values).0 in
        (final.stale ≡ 0) × (final.unavailable ≡ 0)
        → (counts.stale ≡ 0) × (counts.unavailable ≡ 0) × All Fresh tags
  unfolding readings count_reading
  readings-good [] counts values h = (h.0, h.1, tt)
  readings-good (tag ∷ tags) counts values h =
      let r = reading J s generation now tag in
      let (a, b, rest) =
        readings-good tags (count_reading J counts r.quality)
          (assign Bytes-discrete tag.id r values) h in
      let is : is_good r.quality ≡ true = ground (arith, a, b) in
      (ground (arith, a, is), ground (arith, b, is), (reading-Fresh tag is, rest))

  overall-good :
      (counts : Counts J) → overall J counts ≡ good → (counts.stale ≡ 0) × (counts.unavailable ≡ 0)
  unfolding overall
  overall-good counts h = ground arith

  -- `snapshot` of an accepted document calls the whole good only when every declared tag has a current value
  -- of this generation, received as good, that is not older than the limit.
  pub snapshot-good :
      (document : Json) (model : Model Double) (view : Snapshot J)
      → index_model J document ≡ ok model
      → snapshot J s document generation now ≡ ok view
      → view.quality ≡ good
      → All Fresh model.tags
  unfolding snapshot show
  snapshot-good document model view accepted h good_view =
      let zero_counts : Counts J = record { good = 0; stale = 0; unavailable = 0 } in
      let (counts, values) = readings J s generation now model.tags zero_counts [] in
      elim (Result-cases (alarm_states J model.alarms values)) [
        | inl (e, failed) ↦ absurd (ground (arith, accepted, failed))
        | inr (states, made) ↦
            (readings-good model.tags zero_counts []
              (overall-good counts (ground (arith, accepted, made)))).2
      ]
