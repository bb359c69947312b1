-- ===== src/Telemetry/Declared.antt =====
-- The store of telemetry_store.cpp holds values of declared tags alone, so it stays as small as the model.
use ctm.Prelude.{
  ℕ, ◌+◌, ◌≤◌, ◌≡◌, ◌≢◌, sym, subst, if_pos, if_neg, inl, inr, true, List, [], ◌∷◌, Bytes,
  Bytes-discrete, bytes_eq, bytes_eq_iff, none, some, Option-cases, arith, All, length, length-map,
  find, assign, Distinct, assign-Distinct, Result-cases, ok, if◌then◌else◌,
}
use ctm.Json.{JsonLibrary}
use ctm.Model.{Model, Tag, known, tag_ids, find_tag, index_model}
use ctm.Model.Proofs.{index_model-IsValid}
use ctm.Telemetry.{Sample, Current, Store, Checked, store_samples, commit, committed, reconfigure}
use ctm.Telemetry.Batch.{
  check_batch, check_fields, check_samples, validate_value, try_ingest, ingest,
}
use ctm.Telemetry.Commit.{commit-eq_ok, ingest-refused}
use ctm.Telemetry.Order.{Request, serve}

-- The keys are among the ids.
abbrev pub Among : {V : Type 0} → List Bytes → List (Bytes × V) → Type 0
Among ids [] = Unit
Among ids ((k, v) ∷ m) = (known k ids ≡ true) × Among ids m

-- The ids without one of them.
without : Bytes → List Bytes → List Bytes
without id [] = []
without id (i ∷ ids) = if bytes_eq id i then ids else i ∷ without id ids

length-without :
    (id : Bytes) (ids : List Bytes) → known id ids ≡ true → length (without id ids) + 1 ≡ length ids
unfolding without known
length-without id [] h = absurd (ground arith)
length-without id (i ∷ ids) h = ground (arith, length-without id ids)

known-without :
    (id k : Bytes) (ids : List Bytes)
    → id ≢ k
    → known k ids ≡ true
    → known k (without id ids) ≡ true
unfolding without known
known-without id k [] ne h = absurd (ground arith)
known-without id k (i ∷ ids) ne h =
    ground (arith, known-without id k ids ne, bytes_eq_iff id i, bytes_eq_iff k i)

Among-without :
    {V : Type 0} (id : Bytes) (ids : List Bytes) (m : List (Bytes × V))
    → find Bytes-discrete id m ≡ none
    → Among ids m
    → Among (without id ids) m
unfolding find
Among-without id ids [] h a = tt
Among-without id ids ((k, v) ∷ m) h a = elim (Bytes-discrete k id) [
  | yes same ↦ absurd (ground (arith, same))
  | no other ↦ (
    known-without id k ids (λ e. other (sym e)) a.0,
    Among-without id ids m (ground (arith, other)) a.1,
  )
]

-- Distinct keys among the ids are no more than the ids.
length-le-Among :
    {V : Type 0} (m : List (Bytes × V)) (ids : List Bytes)
    → Distinct Bytes-discrete m
    → Among ids m
    → length m ≤ length ids
length-le-Among [] ids d a = omega arith
length-le-Among ((k, v) ∷ m) ids d a = omega (
  arith,
  length-without k ids a.0,
  length-le-Among m (without k ids) d.1 (Among-without k ids m d.0 a.1),
)

assign-Among :
    {V : Type 0} (ids : List Bytes) (k : Bytes) (v : V) (m : List (Bytes × V))
    → known k ids ≡ true
    → Among ids m
    → Among ids (assign Bytes-discrete k v m)
unfolding assign
assign-Among ids k v [] h a = (h, tt)
assign-Among ids k v ((j, w) ∷ m) h a = elim (Bytes-discrete j k) [
  | yes same ↦
      rw (if_pos (Bytes-discrete j k) same ((j, v) ∷ m) ((j, w) ∷ assign Bytes-discrete k v m))
        (a.0, a.1)
  | no other ↦
      rw (if_neg (Bytes-discrete j k) other ((j, v) ∷ m) ((j, w) ∷ assign Bytes-discrete k v m))
        (a.0, assign-Among ids k v m h a.1)
]

found-known :
    (tags : List Tag) (id : Bytes) (tag : Tag)
    → find_tag id tags ≡ some tag
    → known id (tag_ids tags) ≡ true
unfolding find_tag known
found-known [] id tag h = absurd (ground arith)
found-known (t ∷ tags) id tag h = ground (arith, found-known tags id tag)

module _ (J : JsonLibrary) where
  open J use {Json, Double}

  check_samples-Among :
      (tags : List Tag) (samples : List (Bytes × Json)) (out : List (Bytes × Sample J))
      → check_samples J tags samples ≡ ok out
      → Among (tag_ids tags) out
  unfolding check_samples
  check_samples-Among tags [] out h =
      let same : [] ≡ out = ground arith in subst (Among (tag_ids tags)) same tt
  check_samples-Among tags ((id, sample) ∷ samples) out h = elim (Option-cases (find_tag id tags)) [
    | inl missing ↦ absurd (ground (arith, missing))
    | inr (tag, found) ↦ elim (Result-cases (validate_value J sample tag)) [
      | inl (e, failed) ↦ absurd (ground (arith, found, failed))
      | inr (checked, went) ↦ elim (Result-cases (check_samples J tags samples)) [
        | inl (e, failed) ↦ absurd (ground (arith, found, went, failed))
        | inr (rest, done) ↦
            let same : (id, checked) ∷ rest ≡ out = ground (arith, found, went, done) in
            subst (Among (tag_ids tags)) same
              (found-known tags id tag found, check_samples-Among tags samples rest done)
      ]
    ]
  ]

  store_samples-keeps :
      (ids : List Bytes) (samples : List (Bytes × Sample J)) (received : ℕ) (source : Bytes)
      (sequence : ℕ) (values : List (Bytes × Current J))
      → Among ids samples
      → Among ids values × Distinct Bytes-discrete values
      → let out = store_samples J samples received source sequence values in
        Among ids out × Distinct Bytes-discrete out
  unfolding store_samples
  store_samples-keeps ids [] received source sequence values a v = v
  store_samples-keeps ids ((id, sample) ∷ samples) received source sequence values a v =
      let current : Current J = record {
        sample = sample;
        received_timestamp_ms = received;
        source_id = source;
        sequence = sequence;
      } in
      store_samples-keeps ids samples received source sequence
        (assign Bytes-discrete id current values) a.1
        (
          assign-Among ids id current values a.0 v.0,
          assign-Distinct Bytes-discrete id current values v.1,
        )

  -- A store whose values are of declared tags.
  pub record Declared (model : Model Double) (s : Store J) : Type 0 where
    pub among : Among (tag_ids model.tags) s.values
    pub apart : Distinct Bytes-discrete s.values

  check_batch-Among :
      (document : Json) (generation : ℕ) (batch : Json) (maximum : ℕ) (model : Model Double)
      (checked : Checked J)
      → index_model J document ≡ ok model
      → check_batch J document generation batch maximum ≡ ok checked
      → Among (tag_ids model.tags) checked.samples
  unfolding check_batch
  check_batch-Among document generation batch maximum model checked accepted h =
      elim (Result-cases (check_fields J model generation batch maximum)) [
        | inl (e, failed) ↦ absurd (ground (arith, accepted, failed))
        | inr ((source, sequence, values), went) ↦
            elim (Result-cases (check_samples J model.tags values)) [
              | inl (e, failed) ↦ absurd (ground (arith, accepted, went, failed))
              | inr (samples, done) ↦
                  let same : samples ≡ checked.samples = ground (arith, accepted, went, done) in
                  subst (Among (tag_ids model.tags)) same
                    (check_samples-Among model.tags values samples done)
            ]
      ]

  committed-Declared :
      (model : Model Double) (s : Store J) (checked : Checked J) (now : ℕ)
      → (let out =
            store_samples J checked.samples now checked.source_id checked.sequence s.values in
          Among (tag_ids model.tags) out × Distinct Bytes-discrete out)
      → Declared model (committed J s checked now)
  unfolding committed
  committed-Declared model s checked now kept = record { among = kept.0; apart = kept.1 }

  -- One call about the document keeps the store's values declared.
  ingest-Declared :
      (s : Store J) (document : Json) (generation : ℕ) (batch : Json) (now : ℕ)
      (model : Model Double)
      → index_model J document ≡ ok model
      → Declared model s
      → Declared model (ingest J s document generation batch now).0
  unfolding ingest try_ingest
  ingest-Declared s document generation batch now model accepted d =
      elim (Result-cases (ingest J s document generation batch now).1) [
        | inl (e, failed) ↦
            subst (Declared model) (sym (ingest-refused J s document generation batch now e failed))
              (record { among = d.among; apart = d.apart })
        | inr (_, went) ↦
            elim (Result-cases
              (check_batch J document generation batch s.maximum_values_per_batch)) [
                | inl (e, failed) ↦ absurd (ground (arith, went, failed))
                | inr (checked, read) ↦ elim (Result-cases (commit J s generation checked now)) [
                  | inl (e, failed) ↦ absurd (ground (arith, went, read, failed))
                  | inr (s', done) ↦
                      let (same, _, _) = commit-eq_ok J s s' generation checked now done in
                      let result : committed J s checked now
                          ≡ (ingest J s document generation batch now).0 =
                        ground (arith, read, done, same) in
                      let samples =
                        check_batch-Among document generation batch s.maximum_values_per_batch model
                          checked accepted read in
                      let kept =
                        store_samples-keeps (tag_ids model.tags) checked.samples now
                          checked.source_id checked.sequence s.values samples (d.among, d.apart) in
                      subst (Declared model) result (committed-Declared model s checked now kept)
                ]
              ]
      ]

  -- Calls of `ingest`, all about one document.
  abbrev pub About : Json → List (Request J) → Type 0
  About document = All (λ (r : Request J). r.document ≡ document)

  pub serve_all : Store J → List (Request J) → Store J
  serve_all s [] = s
  serve_all s (r ∷ requests) = serve_all (serve J s r) requests

  serve_all-Declared :
      (document : Json) (model : Model Double) (requests : List (Request J)) (s : Store J)
      → index_model J document ≡ ok model
      → About document requests
      → Declared model s
      → Declared model (serve_all s requests)
  unfolding serve_all
  serve_all-Declared document model [] s accepted about d = d
  serve_all-Declared document model (r ∷ requests) s accepted about d =
      serve_all-Declared document model requests (serve J s r) accepted about.1
        (ingest-Declared s r.document r.generation r.batch r.now model (rw about.0 accepted) d)

  -- After a reconfiguration and any calls of `ingest` about one accepted document, the store holds values of
  -- declared tags alone, at most one for each, and so never more than 2048.
  pub serve_all-bounded :
      (document : Json) (model : Model Double) (s : Store J) (generation : ℕ)
      (requests : List (Request J))
      → index_model J document ≡ ok model
      → About document requests
      → let s' = serve_all (reconfigure J s generation) requests in
        Declared model s' × (length s'.values ≤ length model.tags) × (length s'.values ≤ 2048)
  unfolding reconfigure
  serve_all-bounded document model s generation requests accepted about =
      let d =
        serve_all-Declared document model requests (reconfigure J s generation) accepted about
          (record { among = tt; apart = tt }) in
      let few =
        length-le-Among (serve_all (reconfigure J s generation) requests).values
          (tag_ids model.tags) d.apart d.among in
      let valid = index_model-IsValid J document model accepted in
      let tags = length-map (λ (tag : Tag). tag.id) model.tags in
      (d, omega (arith, few, tags), omega (arith, few, tags, valid.few_tags))
