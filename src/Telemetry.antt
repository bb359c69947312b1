-- ===== src/Telemetry.antt =====
-- src/context_hmi/telemetry_store.hpp and telemetry_store.cpp: `Store`, the current values that an
-- external adapter supplies. What `ingest` does before it takes the lock reads no state that changes, so a call is one step;
-- the clock reading is its argument `now`. A failure is the code of the `DomainError`;
-- `type_error` is an exception of the JSON library. `unordered_map` and the members of `values_` are association
-- lists.
pub mod Batch
pub mod View
pub mod Commit
pub mod Order
pub mod Fresh
pub mod Declared
pub mod Types
pub mod Alarms
pub mod Tests
use ctm.Prelude.{
  ℕ, ◌+◌, Bool, true, false, ◌||◌, List, [], ◌∷◌, Bytes, Bytes-discrete, Option, none, some, leb,
  ltb, ◌==◌, if◌then◌else◌, length, find, assign, add64, Result, ok, err, ◌>>=◌, ◌>>◌, throw_if,
}
use ctm.Json.{JsonLibrary}

pub data Error : Type 0 where
  invalid_model stale_context invalid_telemetry telemetry_out_of_order type_error : Error
  stale_interval_out_of_range value_limit_out_of_range out_of_range : Error

pub data Quality : Type 0 where
  good uncertain bad unknown stale partial : Quality

module _ (J : JsonLibrary) where
  open J use {Json}

  pub record Sample : Type 0 where
    pub value : Json
    pub quality : Quality
    pub timestamp_ms : ℕ

  -- A sample with what `ingest` adds to it.
  pub record Current : Type 0 where
    pub sample : Sample
    pub received_timestamp_ms : ℕ
    pub source_id : Bytes
    pub sequence : ℕ

  pub record Store : Type 0 where
    pub stale_after_ms : ℕ
    pub maximum_values_per_batch : ℕ
    pub values : List (Bytes × Current)
    pub source_sequences : List (Bytes × ℕ)
    pub context_generation : ℕ
    pub accepted_batches : ℕ
    pub rejected_batches : ℕ
    pub accepted_values : ℕ
    pub last_received_ms : ℕ

  -- The constructor.
  unfoldable pub create : ℕ → ℕ → Result Error Store
  create stale_after_ms maximum_values_per_batch =
      if ltb stale_after_ms 100 || ltb 300000 stale_after_ms
      then err stale_interval_out_of_range
      else if maximum_values_per_batch == 0 || ltb 4096 maximum_values_per_batch
      then err value_limit_out_of_range
      else ok (record {
        stale_after_ms = stale_after_ms;
        maximum_values_per_batch = maximum_values_per_batch;
        values = [];
        source_sequences = [];
        context_generation = 0;
        accepted_batches = 0;
        rejected_batches = 0;
        accepted_values = 0;
        last_received_ms = 0;
      })

  -- What `ingest` has checked of a batch before it takes the lock.
  pub record Checked : Type 0 where
    pub source_id : Bytes
    pub sequence : ℕ
    pub samples : List (Bytes × Sample)

  unfoldable pub store_samples :
      List (Bytes × Sample) → ℕ → Bytes → ℕ → List (Bytes × Current) → List (Bytes × Current)
  store_samples [] received source_id sequence values = values
  store_samples ((id, sample) ∷ samples) received source_id sequence values =
      store_samples samples received source_id sequence (
        assign Bytes-discrete id
          (record {
            sample = sample;
            received_timestamp_ms = received;
            source_id = source_id;
            sequence = sequence;
          })
          values)

  unfoldable pub committed : Store → Checked → ℕ → Store
  committed s batch received = record s {
    values = store_samples batch.samples received batch.source_id batch.sequence s.values;
    source_sequences = assign Bytes-discrete batch.source_id batch.sequence s.source_sequences;
    accepted_batches = add64 s.accepted_batches 1;
    accepted_values = add64 s.accepted_values (length batch.samples);
    last_received_ms = received;
  }

  -- The commit: what `ingest` does under the lock.
  unfoldable pub commit : Store → ℕ → Checked → ℕ → Result Error Store
  commit s generation batch received = do
    throw_if (if s.context_generation == generation then false else true) stale_context
    throw_if
        (elim (find Bytes-discrete batch.source_id s.source_sequences) [
          | none ↦ false
          | some previous ↦ leb batch.sequence previous
        ])
        telemetry_out_of_order
    ok (committed s batch received)

  unfoldable pub reconfigure : Store → ℕ → Store
  reconfigure s generation = record s {
    values = [];
    source_sequences = [];
    context_generation = generation;
    last_received_ms = 0;
  }

  -- `ready`, and the number of current values.
  unfoldable pub readiness : Store → ℕ → Bool × ℕ
  readiness s generation =
      if s.context_generation == generation
      then if s.last_received_ms == 0 then (false, 0) else (true, length s.values)
      else (false, 0)
