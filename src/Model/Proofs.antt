-- ===== src/Model/Proofs.antt =====
-- Every document that `index_model` of model_validation.cpp accepts is valid.
use ctm.Prelude.{
  ℕ, ◌+◌, ◌^◌, ◌≤◌, ◌<◌, ◌≡◌, subst, inl, inr, true, false, List, [], ◌∷◌, ◌++◌, Bytes,
  bytes_eq_iff, codes, Option-cases, arith, All, length, length-append, Result, Result-cases, ok,
}
use ctm.Json.{JsonLibrary}
use ctm.Model.{
  Asset, Relationship, Tag, Alarm, Model, known, asset_ids, relationship_ids, tag_ids, alarm_ids,
  find_tag, read_all, read_asset, read_relationship, read_tag, read_alarm, asset_fields,
  relationship_fields, tag_fields, alarm_fields, revision_field, index_model, model_fields,
  model_arrays, read_model,
}
use ctm.Model.Fields.{Error, bounded_array, required}
use ctm.Model.Valid.{Unique, Connects, Watches, IsValid, Unique-map_snoc, All-snoc}

module _ (J : JsonLibrary) where
  open J use {Json, Double}

  -- An invariant of the entries that every round keeps holds of all of them.
  read_all-invariant {ℓ κ} :
      {A : Type ℓ} (P : List A → Type κ) (read : Json → List A → Result Error A)
      → ((item : Json) (entries : List A) (entry : A)
          → P entries
          → read item entries ≡ ok entry
          → P (entries ++ entry ∷ []))
      → (items : List Json) (entries out : List A) → P entries
      → read_all J read items entries ≡ ok out
      → P out × (length out ≡ length entries + length items)
  unfolding read_all
  read_all-invariant P read keep [] entries out p h =
      let same : entries ≡ out = ground arith in (subst P same p, rw (← same) (omega arith))
  read_all-invariant P read keep (item ∷ items) entries out p h =
      elim (Result-cases (read item entries)) [
        | inl (e, failed) ↦ absurd (ground (arith, failed))
        | inr (entry, went) ↦
            let (q, n) =
              read_all-invariant P read keep items (entries ++ entry ∷ []) out
                (keep item entries entry p went) (rw (went, read_all) at h) in
            (q, omega (arith, n, length-append entries (entry ∷ [])))
      ]

  read_asset-new :
      (item : Json) (assets : List Asset) (asset : Asset)
      → read_asset J item assets ≡ ok asset
      → known asset.id (asset_ids assets) ≡ false
  unfolding read_asset
  read_asset-new item assets asset h = elim (Result-cases (asset_fields J item)) [
    | inl (e, failed) ↦ absurd (ground (arith, failed))
    | inr (a, went) ↦ ground (arith, went)
  ]

  read_relationship-checks :
      (assets : List Asset) (item : Json) (rels : List Relationship) (rel : Relationship)
      → read_relationship J assets item rels ≡ ok rel
      → (known rel.id (relationship_ids rels) ≡ false) × Connects assets rel
  unfolding read_relationship
  read_relationship-checks assets item rels rel h =
      elim (Result-cases (relationship_fields J item)) [
        | inl (e, failed) ↦ absurd (ground (arith, failed))
        | inr (r, went) ↦ ground (arith, went, bytes_eq_iff r.from r.to)
      ]

  read_tag-checks :
      (assets : List Asset) (item : Json) (tags : List Tag) (tag : Tag)
      → read_tag J assets item tags ≡ ok tag
      → (known tag.id (tag_ids tags) ≡ false) × (known tag.asset_id (asset_ids assets) ≡ true)
  unfolding read_tag
  read_tag-checks assets item tags tag h = elim (Result-cases (tag_fields J item)) [
    | inl (e, failed) ↦ absurd (ground (arith, failed))
    | inr (t, went) ↦ ground (arith, went)
  ]

  read_alarm-checks :
      (assets : List Asset) (tags : List Tag) (item : Json) (alarms : List (Alarm Double))
      (alarm : Alarm Double)
      → read_alarm J assets tags item alarms ≡ ok alarm
      → (known alarm.id (alarm_ids alarms) ≡ false) × Watches assets tags alarm
  unfolding read_alarm
  read_alarm-checks assets tags item alarms alarm h = elim (Result-cases (alarm_fields J item)) [
    | inl (e, failed) ↦ absurd (ground (arith, failed))
    | inr (a, went) ↦ elim (Option-cases (find_tag a.tag_id tags)) [
      | inl missing ↦ absurd (ground (arith, went, missing))
      | inr (tag, found) ↦
          let same : a ≡ alarm = ground (arith, went, found) in
          (
            ground (arith, went, found),
            record {
              tag = tag;
              declared = ground (arith, same, found);
              owned = ground (arith, went, found, bytes_eq_iff tag.asset_id a.asset_id);
              owner_known = ground (arith, went, found);
              numeric = ground (arith, went, found);
              operator = ground (arith, went, found);
              severity = ground (arith, went, found);
            },
          )
    ]
  ]

  bounded_array-few :
      (value : Json) (key : Bytes) (max : ℕ) (items : List Json)
      → bounded_array J value key max ≡ ok items
      → length items ≤ max
  unfolding bounded_array
  bounded_array-few value key max items h = elim (Result-cases (required J value key)) [
    | inl (e, failed) ↦ absurd (ground (arith, failed))
    | inr (field, went) ↦ ground (arith, went)
  ]

  revision_field-small : (model : Json) (n : ℕ) → revision_field J model ≡ ok n → n < 2 ^ 32
  unfolding revision_field
  revision_field-small model n h = ground arith

  model_fields-small :
      (document : Json) (id : Bytes) (n : ℕ) (name : Bytes)
      → model_fields J document ≡ ok (id, n, name)
      → n < 2 ^ 32
  unfolding model_fields
  model_fields-small document id n name h = elim (Result-cases (revision_field J document)) [
    | inl (e, failed) ↦ absurd (ground (arith, failed))
    | inr (r, went) ↦
        let small = revision_field-small document r went in
        let same : r ≡ n = ground (arith, went) in omega (arith, small, same)
  ]

  -- The limits of the four arrays.
  abbrev Few : List Json × List Json × List Json × List Json → Type 0
  Few (assets, relationships, tags, alarms) =
      (length assets ≤ 256)
      × (length relationships ≤ 512)
      × (length tags ≤ 2048)
      × (length alarms ≤ 2048)

  model_arrays-Few :
      (document : Json) (arrays : List Json × List Json × List Json × List Json)
      → model_arrays J document ≡ ok arrays
      → Few arrays
  unfolding model_arrays
  model_arrays-Few document (assets, rels, tags, alarms) h = ground (
    arith,
    bounded_array-few document (codes "assets") 256 assets,
    bounded_array-few document (codes "relationships") 512 rels,
    bounded_array-few document (codes "tags") 2048 tags,
    bounded_array-few document (codes "alarms") 2048 alarms,
  )

  assets-kept :
      (items : List Json) (out : List Asset)
      → read_all J (read_asset J) items [] ≡ ok out
      → Unique (asset_ids out) × (length out ≡ length items)
  assets-kept items out h =
      let r =
        read_all-invariant (λ (l : List Asset). Unique (asset_ids l)) (read_asset J)
          (λ item l entry u g.
            Unique-map_snoc (λ (a : Asset). a.id) l entry u (read_asset-new item l entry g))
          items [] out tt h in
      (r.0, omega (arith, r.1))

  relationships-kept :
      (assets : List Asset) (items : List Json) (out : List Relationship)
      → read_all J (read_relationship J assets) items [] ≡ ok out
      → (Unique (relationship_ids out) × All (Connects assets) out) × (length out ≡ length items)
  relationships-kept assets items out h =
      let r =
        read_all-invariant
          (λ (l : List Relationship). Unique (relationship_ids l) × All (Connects assets) l)
          (read_relationship J assets)
          (λ item l entry u g.
            let c = read_relationship-checks assets item l entry g in
            (
              Unique-map_snoc (λ (x : Relationship). x.id) l entry u.0 c.0,
              All-snoc (Connects assets) l entry u.1 c.1,
            ))
          items [] out (tt, tt) h in
      (r.0, omega (arith, r.1))

  tags-kept :
      (assets : List Asset) (items : List Json) (out : List Tag)
      → read_all J (read_tag J assets) items [] ≡ ok out
      → (Unique (tag_ids out)
          × All (λ (tag : Tag). known tag.asset_id (asset_ids assets) ≡ true) out)
        × (length out ≡ length items)
  tags-kept assets items out h =
      let Owned : Tag → Type 0 = λ tag. known tag.asset_id (asset_ids assets) ≡ true in
      let r =
        read_all-invariant (λ (l : List Tag). Unique (tag_ids l) × All Owned l) (read_tag J assets)
          (λ item l entry u g.
            let c = read_tag-checks assets item l entry g in
            (Unique-map_snoc (λ (x : Tag). x.id) l entry u.0 c.0, All-snoc Owned l entry u.1 c.1))
          items [] out (tt, tt) h in
      (r.0, omega (arith, r.1))

  alarms-kept :
      (assets : List Asset) (tags : List Tag) (items : List Json) (out : List (Alarm Double))
      → read_all J (read_alarm J assets tags) items [] ≡ ok out
      → (Unique (alarm_ids out) × All (Watches assets tags) out) × (length out ≡ length items)
  alarms-kept assets tags items out h =
      let r =
        read_all-invariant
          (λ (l : List (Alarm Double)). Unique (alarm_ids l) × All (Watches assets tags) l)
          (read_alarm J assets tags)
          (λ item l entry u g.
            let c = read_alarm-checks assets tags item l entry g in
            (
              Unique-map_snoc (λ (x : Alarm Double). x.id) l entry u.0 c.0,
              All-snoc (Watches assets tags) l entry u.1 c.1,
            ))
          items [] out (tt, tt) h in
      (r.0, omega (arith, r.1))

  entries-IsValid :
      (id : Bytes) (n : ℕ) (name : Bytes) (asset_items rel_items tag_items alarm_items : List Json)
      (m : Model Double)
      → n < 2 ^ 32
      → Few (asset_items, rel_items, tag_items, alarm_items)
      → read_model J id n name (asset_items, rel_items, tag_items, alarm_items) ≡ ok m
      → IsValid m
  unfolding read_model
  entries-IsValid id n name asset_items rel_items tag_items alarm_items m small few h =
      elim (Result-cases (read_all J (read_asset J) asset_items [])) [
        | inl (e, failed) ↦ absurd (ground (arith, failed))
        | inr (assets, e₁) ↦
            elim (Result-cases (read_all J (read_relationship J assets) rel_items [])) [
              | inl (e, failed) ↦ absurd (ground (arith, e₁, failed))
              | inr (rels, e₂) ↦ elim (Result-cases (read_all J (read_tag J assets) tag_items [])) [
                | inl (e, failed) ↦ absurd (ground (arith, e₁, e₂, failed))
                | inr (tags, e₃) ↦
                    elim (Result-cases (read_all J (read_alarm J assets tags) alarm_items [])) [
                      | inl (e, failed) ↦ absurd (ground (arith, e₁, e₂, e₃, failed))
                      | inr (alarms, e₄) ↦
                          let (a, la) = assets-kept asset_items assets e₁ in
                          let (r, lr) = relationships-kept assets rel_items rels e₂ in
                          let (t, lt) = tags-kept assets tag_items tags e₃ in
                          let (l, ll) = alarms-kept assets tags alarm_items alarms e₄ in
                          let made : Model Double = record {
                            model_id = id;
                            revision = n;
                            name = name;
                            assets = assets;
                            relationships = rels;
                            tags = tags;
                            alarms = alarms;
                          } in
                          let same : made ≡ m = ground (arith, e₁, e₂, e₃, e₄) in
                          subst IsValid same (record {
                            revision = small;
                            few_assets = omega (arith, la, few.0);
                            few_relationships = omega (arith, lr, few.1);
                            few_tags = omega (arith, lt, few.2);
                            few_alarms = omega (arith, ll, few.3);
                            assets = a;
                            relationships = r.0;
                            tags = t.0;
                            alarms = l.0;
                            connected = r.1;
                            owned = t.1;
                            watched = l.1;
                          })
                    ]
              ]
            ]
      ]

  -- A document that `index_model` accepts has no id twice in any of its four arrays, each of them
  -- within its limit; relationships join two different declared assets, tags belong to declared
  -- assets, and every alarm stands on a declared numeric tag of its own asset.
  pub index_model-IsValid :
      (document : Json) (m : Model Double) → index_model J document ≡ ok m → IsValid m
  unfolding index_model
  index_model-IsValid document m h = elim (Result-cases (model_fields J document)) [
    | inl (e, failed) ↦ absurd (ground (arith, failed))
    | inr ((id, n, name), header) ↦ elim (Result-cases (model_arrays J document)) [
      | inl (e, failed) ↦ absurd (ground (arith, header, failed))
      | inr ((asset_items, rel_items, tag_items, alarm_items), arrays) ↦
          entries-IsValid id n name asset_items rel_items tag_items alarm_items m
            (model_fields-small document id n name header)
            (model_arrays-Few document (asset_items, rel_items, tag_items, alarm_items) arrays)
            (rw (header, arrays) at h)
    ]
  ]
