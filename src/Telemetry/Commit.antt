-- ===== src/Telemetry/Commit.antt =====
-- What a call of `ingest` of telemetry_store.cpp does to the store, refused or accepted.
use ctm.Prelude.{
  ℕ, ◌<◌, ◌≤◌, ap, ◌≡◌, refl, subst, ite, ◌∙◌, inl, inr, List, [], ◌∷◌, Bytes, Bytes-discrete,
  Option, none, some, Option-cases, arith, find, assign, find-assign, add64, Result-cases, ok, err,
}
use ctm.Json.{JsonLibrary}
use ctm.Telemetry.{
  Error, telemetry_out_of_order, Sample, Current, Store, Checked, store_samples, commit, committed,
}
use ctm.Telemetry.Batch.{check_batch, try_ingest, ingest}

module _ (J : JsonLibrary) where
  open J use {Json}

  pub ingest-refused :
      (s : Store J) (document : Json) (generation : ℕ) (batch : Json) (now : ℕ) (e : Error)
      → (ingest J s document generation batch now).1 ≡ err e
      → (ingest J s document generation batch now).0
        ≡ record s { rejected_batches = add64 s.rejected_batches 1 }
  unfolding ingest
  ingest-refused s document generation batch now e h = ground arith

  -- The sample that a batch has last for a tag.
  pub latest : Bytes → List (Bytes × Sample J) → Option (Sample J)
  latest id [] = none
  latest id ((k, sample) ∷ samples) = elim (latest id samples) [
    | some later ↦ some later
    | none ↦ ite (Bytes-discrete k id) (some sample) none
  ]

  -- The entry of a tag after a commit.
  abbrev pub entry : Option (Sample J) → ℕ → Bytes → ℕ → Option (Current J) → Option (Current J)
  entry none received source sequence old = old
  entry (some sample) received source sequence old = some (record {
    sample = sample;
    received_timestamp_ms = received;
    source_id = source;
    sequence = sequence;
  })

  find-store_samples :
      (samples : List (Bytes × Sample J)) (received : ℕ) (source : Bytes) (sequence : ℕ)
      (values : List (Bytes × Current J)) (id : Bytes)
      → find Bytes-discrete id (store_samples J samples received source sequence values)
        ≡ entry (latest id samples) received source sequence (find Bytes-discrete id values)
  unfolding store_samples latest
  find-store_samples [] received source sequence values id = refl
  find-store_samples ((k, sample) ∷ samples) received source sequence values id =
      let current : Current J = record {
        sample = sample;
        received_timestamp_ms = received;
        source_id = source;
        sequence = sequence;
      } in
      find-store_samples samples received source sequence (assign Bytes-discrete k current values)
        id
      ∙ ground (arith, find-assign Bytes-discrete k id current values)

  -- A sequence number is new for its source when it is above the last one.
  abbrev pub Advances : Option ℕ → ℕ → Type 0
  Advances none n = Unit
  Advances (some previous) n = previous < n

  pub commit-eq_ok :
      (s s' : Store J) (generation : ℕ) (batch : Checked J) (received : ℕ)
      → commit J s generation batch received ≡ ok s'
      → (committed J s batch received ≡ s')
        × (s.context_generation ≡ generation)
        × Advances (find Bytes-discrete batch.source_id s.source_sequences) batch.sequence
  unfolding commit
  commit-eq_ok s s' generation batch received h =
      elim (Option-cases (find Bytes-discrete batch.source_id s.source_sequences)) [
        | inl new ↦ ground (arith, new)
        | inr (previous, found) ↦ rw found (ground (arith, found))
      ]

  -- The store after a batch that is accepted.
  pub record Accepted (s s' : Store J) (generation : ℕ) (batch : Checked J) (now : ℕ) : Type 0 where
    pub current : s.context_generation ≡ generation
    pub advances : Advances (find Bytes-discrete batch.source_id s.source_sequences) batch.sequence
    pub sequences :
        (source : Bytes)
        → find Bytes-discrete source s'.source_sequences
          ≡ ite
              (Bytes-discrete batch.source_id source)
              (some batch.sequence)
              (find Bytes-discrete source s.source_sequences)
    pub values :
        (id : Bytes)
        → find Bytes-discrete id s'.values
          ≡ entry
              (latest id batch.samples)
              now
              batch.source_id
              batch.sequence
              (find Bytes-discrete id s.values)
    pub limit_kept : s'.maximum_values_per_batch ≡ s.maximum_values_per_batch
    pub generation_kept : s'.context_generation ≡ s.context_generation
    pub counted : s'.accepted_batches ≡ add64 s.accepted_batches 1
    pub refused : s'.rejected_batches ≡ s.rejected_batches

  committed-Accepted :
      (s : Store J) (generation : ℕ) (batch : Checked J) (now : ℕ)
      → s.context_generation ≡ generation
      → Advances (find Bytes-discrete batch.source_id s.source_sequences) batch.sequence
      → Accepted s (committed J s batch now) generation batch now
  unfolding committed
  committed-Accepted s generation batch now current advances = record {
    current = current;
    advances = advances;
    sequences = λ source.
        find-assign Bytes-discrete batch.source_id source batch.sequence s.source_sequences;
    values = λ id. find-store_samples batch.samples now batch.source_id batch.sequence s.values id;
    limit_kept = refl;
    generation_kept = refl;
    counted = refl;
    refused = refl;
  }

  pub ingest-Accepted :
      (s : Store J) (document : Json) (generation : ℕ) (batch : Json) (now : ℕ)
      → (ingest J s document generation batch now).1 ≡ ok tt
      → (checked : Checked J) × (check_batch J document generation batch s.maximum_values_per_batch
          ≡ ok checked)
        × Accepted s (ingest J s document generation batch now).0 generation checked now
  unfolding ingest try_ingest
  ingest-Accepted s document generation batch now h =
      elim (Result-cases (check_batch J document generation batch s.maximum_values_per_batch)) [
        | inl (e, failed) ↦ absurd (ground (arith, failed))
        | inr (checked, went) ↦ elim (Result-cases (commit J s generation checked now)) [
          | inl (e, failed) ↦ absurd (ground (arith, went, failed))
          | inr (s', done) ↦
              let (same, current, advances) = commit-eq_ok s s' generation checked now done in
              let result : committed J s checked now
                  ≡ (ingest J s document generation batch now).0 =
                ground (arith, went, done, same) in
              (
                checked,
                went,
                subst (λ t. Accepted s t generation checked now) result
                    (committed-Accepted s generation checked now current advances),
              )
        ]
      ]

  commit-eq_err :
      (s : Store J) (generation : ℕ) (batch : Checked J) (received : ℕ) {previous : ℕ}
      → s.context_generation ≡ generation
      → find Bytes-discrete batch.source_id s.source_sequences ≡ some previous
      → batch.sequence ≤ previous
      → commit J s generation batch received ≡ err telemetry_out_of_order
  unfolding commit
  commit-eq_err s generation batch received current found late =
      rw found (ground (arith, current, late))

  ite-same {ℓ} : {A : Type ℓ} (id : Bytes) (d : Dec (id ≡ id)) (x y : A) → ite d x y ≡ x
  ite-same id (yes _) x y = refl
  ite-same id (no other) x y = absurd (other refl)

  ingest-eq_err :
      (s : Store J) (document : Json) (generation : ℕ) (batch : Json) (now : ℕ)
      (checked : Checked J) {e : Error}
      → check_batch J document generation batch s.maximum_values_per_batch ≡ ok checked
      → commit J s generation checked now ≡ err e
      → (ingest J s document generation batch now).1 ≡ err e
  unfolding ingest try_ingest
  ingest-eq_err s document generation batch now checked reads failed = ground (arith, reads, failed)

  -- A batch that was accepted is accepted once: when it comes again for the same generation, at
  -- whatever time, it is out of order, and the store keeps its sequences and values.
  pub ingest_again-refused :
      (s : Store J) (document : Json) (generation : ℕ) (batch : Json) (now later : ℕ)
      → (ingest J s document generation batch now).1 ≡ ok tt
      → let s' = (ingest J s document generation batch now).0 in
        ((ingest J s' document generation batch later).1 ≡ err telemetry_out_of_order)
        × ((ingest J s' document generation batch later).0
            ≡ record s' { rejected_batches = add64 s'.rejected_batches 1 })
  ingest_again-refused s document generation batch now later h =
      let s' = (ingest J s document generation batch now).0 in
      let (checked, reads, a) = ingest-Accepted s document generation batch now h in
      let last =
        a.sequences checked.source_id
        ∙ ite-same checked.source_id (Bytes-discrete _ _) (some checked.sequence)
            (find Bytes-discrete checked.source_id s.source_sequences) in
      let again : (ingest J s' document generation batch later).1 ≡ err telemetry_out_of_order =
        ingest-eq_err s' document generation batch later checked
          (ap (check_batch J document generation batch) a.limit_kept ∙ reads)
          (commit-eq_err s' generation checked later (a.generation_kept ∙ a.current) last
            (omega arith)) in
      (again, ingest-refused s' document generation batch later telemetry_out_of_order again)
