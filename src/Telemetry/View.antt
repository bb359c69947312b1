-- ===== src/Telemetry/View.antt =====
-- `snapshot` of telemetry_store.cpp, on a document that `validate_model` accepts.
use ctm.Prelude.{
  ℕ, ◌+◌, ◌-◌, min, Bool, true, false, not, ◌&&◌, List, [], ◌∷◌, Bytes, Bytes-discrete, bytes_eq,
  codes, Option, none, some, ltb, ◌==◌, if◌then◌else◌, find, assign, Result, ok, err,
}
use ctm.Json.{JsonLibrary, is_number}
use ctm.Model.{Model, Tag, Alarm, index_model}
use ctm.Telemetry.{
  Error, invalid_model, out_of_range, Quality, good, bad, unknown, stale, partial, Current, Store,
}

abbrev pub is_good : Quality → Bool
is_good good = true
is_good _ = false

abbrev pub is_stale : Quality → Bool
is_stale stale = true
is_stale _ = false

-- Neither "bad" nor "unknown".
abbrev pub is_usable : Quality → Bool
is_usable bad = false
is_usable unknown = false
is_usable _ = true

module _ (J : JsonLibrary) where
  open J use {Json, Double, number, greater, greater_equal, equal}

  -- What `snapshot` shows of a tag; without a current value it is null.
  pub record Reading : Type 0 where
    pub current : Option (Current J)
    pub quality : Quality
    pub unit : Bytes
    pub age_ms : ℕ

  pub record AlarmState : Type 0 where
    pub alarm : Alarm Double
    pub available : Bool
    pub active : Bool

  pub record Counts : Type 0 where
    pub good : ℕ
    pub stale : ℕ
    pub unavailable : ℕ

  pub record Snapshot : Type 0 where
    pub quality : Quality
    pub values : List (Bytes × Reading)
    pub alarms : List AlarmState

  -- The threshold test of an alarm, by its operator.
  unfoldable pub compare : Double → Bytes → Double → Bool
  compare value operation threshold =
      if bytes_eq operation (codes ">")
      then greater value threshold
      else if bytes_eq operation (codes ">=")
      then greater_equal value threshold
      else if bytes_eq operation (codes "<")
      then greater threshold value
      else if bytes_eq operation (codes "<=")
      then greater_equal threshold value
      else if bytes_eq operation (codes "==")
      then equal value threshold
      else not (equal value threshold)

  -- A good sample that is too old is stale.
  unfoldable pub aged : Store J → ℕ → Quality → Quality
  aged s age quality = if ltb s.stale_after_ms age && is_good quality then stale else quality

  -- A round of the loop over the tags.
  unfoldable pub reading : Store J → ℕ → ℕ → Tag → Reading
  reading s generation now tag =
      let missing : Reading = record {
        current = none;
        quality = unknown;
        unit = tag.unit;
        age_ms = 0;
      } in
      if s.context_generation == generation
      then elim (find Bytes-discrete tag.id s.values) [
        | none ↦ missing
        | some found ↦
            let age = now - min now found.received_timestamp_ms in
            record {
              current = some found;
              quality = aged s age found.sample.quality;
              unit = tag.unit;
              age_ms = age;
            }
      ]
      else missing

  unfoldable pub count_reading : Counts → Quality → Counts
  count_reading counts quality =
      if is_good quality
      then record counts { good = counts.good + 1 }
      else if is_stale quality
      then record counts { stale = counts.stale + 1 }
      else record counts { unavailable = counts.unavailable + 1 }

  -- The loop over the tags.
  unfoldable pub readings :
      Store J → ℕ → ℕ → List Tag → Counts → List (Bytes × Reading) → Counts × List (Bytes × Reading)
  readings s generation now [] counts values = (counts, values)
  readings s generation now (tag ∷ tags) counts values =
      let r = reading s generation now tag in
      readings s generation now tags (count_reading counts r.quality)
        (assign Bytes-discrete tag.id r values)

  -- The quality of the whole.
  unfoldable pub overall : Counts → Quality
  overall counts =
      if ltb 0 counts.good && counts.stale == 0 && counts.unavailable == 0
      then good
      else if ltb 0 counts.good
      then partial
      else if ltb 0 counts.stale
      then stale
      else unknown

  unfoldable pub alarm_available : Reading → Bool
  alarm_available r = elim r.current [
    | none ↦ false
    | some current ↦ is_number J current.sample.value && is_usable r.quality
  ]

  abbrev exceeds : Alarm Double → Option (Current J) → Bool
  exceeds alarm none = false
  exceeds alarm (some current) =
      compare (number current.sample.value) alarm.operator alarm.threshold

  unfoldable pub alarm_state : Alarm Double → Reading → AlarmState
  alarm_state alarm r = record {
    alarm = alarm;
    available = alarm_available r;
    active = alarm_available r && exceeds alarm r.current;
  }

  -- The loop over the alarms; `at` throws on a tag that has no entry.
  unfoldable pub alarm_states :
      List (Alarm Double) → List (Bytes × Reading) → Result Error (List AlarmState)
  alarm_states [] values = ok []
  alarm_states (alarm ∷ alarms) values = elim (find Bytes-discrete alarm.tag_id values) [
    | none ↦ err out_of_range
    | some r ↦ elim (alarm_states alarms values) [
      | err e ↦ err e
      | ok states ↦ ok (alarm_state alarm r ∷ states)
    ]
  ]

  -- `snapshot` after its call of `validate_model`.
  unfoldable pub show : Store J → Model Double → ℕ → ℕ → Result Error Snapshot
  show s model generation now =
      let (counts, values) =
        readings s generation now model.tags (record { good = 0; stale = 0; unavailable = 0 }) [] in
      elim (alarm_states model.alarms values) [
        | err e ↦ err e
        | ok states ↦ ok (record { quality = overall counts; values = values; alarms = states })
      ]

  unfoldable pub snapshot : Store J → Json → ℕ → ℕ → Result Error Snapshot
  snapshot s document generation now = elim (index_model J document) [
    | err _ ↦ err invalid_model
    | ok model ↦ show s model generation now
  ]
