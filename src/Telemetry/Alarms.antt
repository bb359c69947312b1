-- ===== src/Telemetry/Alarms.antt =====
-- What the alarms and the quality of a `snapshot` of telemetry_store.cpp mean.
use ctm.Prelude.{
  ℕ, ◌-◌, ◌≡◌, ◌≢◌, refl, sym, ◌∙◌, subst, if_pos, if_neg, inl, inr, ◌⊎◌, true, false, List, [],
  ◌∷◌, Bytes, Bytes-discrete, bytes_eq_iff, none, some, Option-cases, Bool-cases, arith, All, ap,
  map, find, assign, find-assign, ok, min,
}
use ctm.Json.{JsonLibrary, is_number}
use ctm.Model.{Model, Asset, Tag, Alarm, known, tag_ids, find_tag, index_model}
use ctm.Model.Valid.{Watches}
use ctm.Model.Proofs.{index_model-IsValid}
use ctm.Telemetry.{Quality, good, uncertain, bad, unknown, stale, partial, Current, Store}
use ctm.Telemetry.View.{
  is_usable, Reading, AlarmState, Counts, Snapshot, compare, aged, reading, count_reading, readings,
  overall, alarm_available, alarm_state, alarm_states, show, snapshot,
}

module _ (J : JsonLibrary) where
  open J use {Json, Double, number}

  none_found : (id : Bytes) (q : Reading J) → find {V = Reading J} Bytes-discrete id [] ≡ some q → ⊥
  unfolding find
  none_found id q h = ground arith

  module _ (s : Store J) (generation now : ℕ) where
    -- The readings by tag.
    table : List Tag → Counts J → List (Bytes × Reading J) → List (Bytes × Reading J)
    table tags counts values = (readings J s generation now tags counts values).1

    -- An alarm has an entry when its tag is declared.
    table-known :
        (tags : List Tag) (counts : Counts J) (values : List (Bytes × Reading J)) (id : Bytes)
        → (known id (tag_ids tags) ≡ true) ⊎ (find Bytes-discrete id values ≢ none)
        → find Bytes-discrete id (table tags counts values) ≢ none
    unfolding table readings known
    table-known [] counts values id h = ground arith
    table-known (tag ∷ tags) counts values id h =
        let r = reading J s generation now tag in
        table-known tags (count_reading J counts r.quality) (assign Bytes-discrete tag.id r values)
          id
          (elim (Bool-cases (known id (tag_ids tags))) [
            | inl later ↦ inl later
            | inr not_later ↦ inr (
                ground (
                  arith,
                  not_later,
                  find-assign Bytes-discrete tag.id id r values,
                  bytes_eq_iff id tag.id,
                ))
          ])

    -- Every entry is the reading of a declared tag with that id.
    abbrev Shows : Bytes → Reading J → Type 0
    Shows id r = (tag : Tag) × (tag.id ≡ id) × (r ≡ reading J s generation now tag)

    table-Shows :
        (tags : List Tag) (counts : Counts J) (values : List (Bytes × Reading J)) (id : Bytes)
        (r : Reading J)
        → ((q : Reading J) → find Bytes-discrete id values ≡ some q → Shows id q)
        → find Bytes-discrete id (table tags counts values) ≡ some r
        → Shows id r
    unfolding table readings
    table-Shows [] counts values id r old h = old r h
    table-Shows (tag ∷ tags) counts values id r old h =
        let new = reading J s generation now tag in
        table-Shows tags (count_reading J counts new.quality)
          (assign Bytes-discrete tag.id new values) id r
          (λ q found. elim (Bytes-discrete tag.id id) [
            | yes same ↦ (
              tag,
              same,
              ground (
                arith,
                found,
                same,
                if_pos (Bytes-discrete tag.id id) same (some new) (find Bytes-discrete id values),
                find-assign Bytes-discrete tag.id id new values,
              ),
            )
            | no other ↦ old q (
                sym (if_neg (Bytes-discrete tag.id id) other _ _)
                ∙ sym (find-assign Bytes-discrete tag.id id new values)
                ∙ found)
          ])
          h

    -- Why an alarm is active: the store has a current value of its tag for this generation, a number that is
    -- neither bad nor of unknown quality, and beyond the threshold.
    pub record Raised (alarm : Alarm Double) : Type 0 where
      pub current : Current J
      pub stored : find Bytes-discrete alarm.tag_id s.values ≡ some current
      pub same_generation : s.context_generation ≡ generation
      pub numeric : is_number J current.sample.value ≡ true
      pub usable : is_usable current.sample.quality ≡ true
      pub beyond : compare J (number current.sample.value) alarm.operator alarm.threshold ≡ true

    aged-usable : (age : ℕ) (q : Quality) → is_usable (aged J s age q) ≡ true → is_usable q ≡ true
    unfolding aged
    aged-usable age good h = refl
    aged-usable age uncertain h = refl
    aged-usable age stale h = refl
    aged-usable age partial h = refl
    aged-usable age bad h = ground arith
    aged-usable age unknown h = ground arith

    reading-Raised :
        (tag : Tag) (alarm : Alarm Double)
        → tag.id ≡ alarm.tag_id
        → (alarm_state J alarm (reading J s generation now tag)).active ≡ true
        → Raised alarm
    unfolding alarm_state alarm_available reading
    reading-Raised tag alarm same h =
        let found = Option-cases (find Bytes-discrete tag.id s.values) in
        elim found [
          | inl missing ↦ absurd (ground (arith, missing))
          | inr (current, stored) ↦
              let age = now - min now current.received_timestamp_ms in
              record {
                current = current;
                stored = subst (λ id. find Bytes-discrete id s.values ≡ some current) same stored;
                same_generation = ground (arith, stored);
                numeric = ground (arith, stored);
                usable = aged-usable age current.sample.quality (ground (arith, stored));
                beyond = ground (arith, stored);
              }
        ]

    -- No state is active without a reason.
    abbrev Justified : AlarmState J → Type 0
    Justified state = (state.active ≡ false) ⊎ Raised state.alarm

    alarm_states-Justified :
        (alarms : List (Alarm Double)) (values : List (Bytes × Reading J))
        → All (λ (a : Alarm Double). find Bytes-discrete a.tag_id values ≢ none) alarms
        → ((id : Bytes) (r : Reading J) → find Bytes-discrete id values ≡ some r → Shows id r)
        → (states : List (AlarmState J)) × (alarm_states J alarms values ≡ ok states)
          × (map (λ (state : AlarmState J). state.alarm) states ≡ alarms)
          × All Justified states
    unfolding alarm_states alarm_state
    alarm_states-Justified [] values present shown = ([], refl, refl, tt)
    alarm_states-Justified (alarm ∷ alarms) values present shown =
        let (states, made, same, justified) =
          alarm_states-Justified alarms values present.1 shown in
        elim (Option-cases (find Bytes-discrete alarm.tag_id values)) [
          | inl missing ↦ absurd (present.0 missing)
          | inr (r, found) ↦
              let (tag, id, e) = shown alarm.tag_id r found in
              let reason : Justified (alarm_state J alarm r) =
                elim (Bool-cases (alarm_state J alarm r).active) [
                  | inl active ↦ inr (
                      reading-Raised tag alarm id
                        (subst (λ q. (alarm_state J alarm q).active ≡ true) e active))
                  | inr quiet ↦ inl quiet
                ] in
              (
                alarm_state J alarm r ∷ states,
                rw (found, made, alarm_states) refl,
                ap (◌∷◌ alarm) same,
                (reason, justified),
              )
        ]

    found-known :
        (tags : List Tag) (id : Bytes) (tag : Tag)
        → find_tag id tags ≡ some tag
        → known id (tag_ids tags) ≡ true
    unfolding find_tag known
    found-known [] id tag h = absurd (ground arith)
    found-known (t ∷ tags) id tag h = ground (arith, found-known tags id tag)

    watched-present :
        (assets : List Asset) (tags : List Tag) (alarms : List (Alarm Double)) (counts : Counts J)
        → All (Watches assets tags) alarms
        → All
            (λ (a : Alarm Double). find Bytes-discrete a.tag_id (table tags counts []) ≢ none)
            alarms
    watched-present assets tags [] counts w = tt
    watched-present assets tags (alarm ∷ alarms) counts w = (
      table-known tags counts [] alarm.tag_id
          (inl (found-known tags alarm.tag_id w.0.tag w.0.declared)),
      watched-present assets tags alarms counts w.1,
    )

    -- `snapshot` of an accepted document succeeds: no lookup of a tag throws. It has one state for each
    -- alarm of the document, in order, and no state is active unless the store has a current
    -- numeric value of its tag, of this generation and of usable quality, beyond the threshold.
    pub snapshot-alarms :
        (document : Json) (model : Model Double)
        → index_model J document ≡ ok model
        → (view : Snapshot J) × (snapshot J s document generation now ≡ ok view)
          × (map (λ (state : AlarmState J). state.alarm) view.alarms ≡ model.alarms)
          × All (λ (state : AlarmState J). (state.active ≡ false) ⊎ Raised state.alarm) view.alarms
    unfolding snapshot show table
    snapshot-alarms document model accepted =
        let zero_counts : Counts J = record { good = 0; stale = 0; unavailable = 0 } in
        let valid = index_model-IsValid J document model accepted in
        let (states, made, same, justified) =
          alarm_states-Justified model.alarms (table model.tags zero_counts [])
            (watched-present model.assets model.tags model.alarms zero_counts valid.watched)
            (λ id r.
              table-Shows model.tags zero_counts [] id r (λ q h. absurd (none_found id q h))) in
        let counts = (readings J s generation now model.tags zero_counts []).0 in
        (
          record {
            quality = overall J counts;
            values = table model.tags zero_counts [];
            alarms = states;
          },
          ground (arith, accepted, made),
          same,
          justified,
        )
