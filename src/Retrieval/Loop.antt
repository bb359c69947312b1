-- ===== src/Retrieval/Loop.antt =====
-- The budget's loop of context_retrieval.cpp as a whole, and `retrieve` with it.
use ctm.Prelude.{
  ℕ, zero, suc, ◌<◌, ◌≤◌, ◌≡◌, refl, ◌∙◌, subst, true, false, ◌||◌, List, [], ◌∷◌, Bytes,
  Option-cases, Bool-cases, inl, inr, ◌⊎◌, arith, length, length-map, length-take, map, take, ltb,
  ◌==◌, Result-cases, ok, err,
}
use ctm.Json.{JsonLibrary}
use ctm.Model.{Model, Asset, index_model}
use ctm.Retrieval.{invalid_model, invalid_request, Limits, Retrieved}
use ctm.Retrieval.Scope.{candidates, scope_assets, scope_tags, scope_alarms}
use ctm.Retrieval.Budget.{estimated_tokens, fits, shrink, fit}
use ctm.Retrieval.Call.{weight, first_result, invalid_limits, retrieve}
use ctm.Retrieval.Rounds.{chosen, Kept, shrink-Safe}

leb_cases : (n : ℕ) → (n ≤ 1) ⊎ (1 < n)
leb_cases n = omega arith

Kept-refl : (r : Retrieved) → Kept r r
Kept-refl r = record {
  limits = refl;
  count = refl;
  specific = refl;
  chosen_same = refl;
  eligible = λ _. refl;
  settled = λ h. (h, refl);
  fewer = ground arith;
}

Kept-trans : (a b c : Retrieved) → Kept a b → Kept b c → Kept a c
Kept-trans a b c k l = record {
  limits = l.limits ∙ k.limits;
  count = l.count ∙ k.count;
  specific = l.specific ∙ k.specific;
  chosen_same = l.chosen_same ∙ k.chosen_same;
  eligible = λ few. l.eligible (rw (k.count) few) ∙ k.eligible few;
  settled = λ h.
      let (before, roles) = l.settled h in
      let (first, same) = k.settled before in (first, roles ∙ same);
  fewer = ground (arith, k.fewer, l.fewer);
}

module _ (size : Retrieved → ℕ) where
  -- With fuel for its weight the loop returns a result that fits, or finds nothing more to remove.
  fit-lem :
      (fuel : ℕ) (r : Retrieved)
      → weight r < fuel
      → (fit size fuel r ≡ err invalid_request)
        ⊎ ((r' : Retrieved) × (fit size fuel r ≡ ok r')
            × Kept r r'
            × (fits (size r') r'.limits ≡ true))
  unfolding fit
  fit-lem zero r h = absurd (omega arith)
  fit-lem (suc fuel) r h = elim (Bool-cases (fits (size r) r.limits)) [
    | inl yes_fits ↦ inr (r, ground (arith, yes_fits), Kept-refl r, yes_fits)
    | inr too_big ↦ elim (Option-cases (shrink r)) [
      | inl nothing ↦ inl (ground (arith, too_big, nothing))
      | inr (smaller, e) ↦
          let (kept, lighter) = shrink-Safe r smaller e in
          elim (fit-lem fuel smaller (omega (arith, lighter))) [
            | inl failed ↦ inl (ground (arith, too_big, e, failed))
            | inr (r', done, more, good) ↦
                inr (r', ground (arith, too_big, e, done), Kept-trans r smaller r' kept more, good)
          ]
    ]
  ]

length-take-le {ℓ} : {A : Type ℓ} (n : ℕ) (xs : List A) → length (take n xs) ≤ n
length-take-le n xs = omega (arith, length-take n xs)

length-map-take {ℓ κ} :
    {A : Type ℓ} {B : Type κ} (f : A → B) (n : ℕ) (xs : List A) → length (map f (take n xs)) ≤ n
length-map-take f n xs = omega (arith, length-map f (take n xs), length-take n xs)

length-scope_assets :
    (room : ℕ) (ids : List Bytes) (assets : List Asset)
    → length (scope_assets room ids assets) ≤ room
unfolding scope_assets
length-scope_assets room [] assets = ground arith
length-scope_assets zero (id ∷ ids) assets = ground arith
length-scope_assets (suc room) (id ∷ ids) assets =
    ground (arith, length-scope_assets room ids assets, length-scope_assets (suc room) ids assets)

-- The lists of a result are within the limits of the request.
pub record Within (limits : Limits) (r : Retrieved) : Type 0 where
  pub candidates : length r.candidates ≤ limits.candidates
  pub assets : length r.assets ≤ limits.assets
  pub relationships : length r.relationships ≤ limits.relationships
  pub tags : length r.tags ≤ limits.tags
  pub alarms : length r.alarms ≤ limits.alarms

first_result-Within :
    {D : Type 0} (model : Model D) (prompt : Bytes) (limits : Limits)
    → Within limits (first_result model prompt limits)
unfolding first_result candidates scope_tags scope_alarms
first_result-Within model prompt limits = record {
  candidates = length-map-take _ limits.candidates _;
  assets = length-scope_assets limits.assets _ _;
  relationships = length-take-le limits.relationships _;
  tags = length-map-take _ limits.tags _;
  alarms = length-map-take _ limits.alarms _;
}

Kept-Within : (limits : Limits) (r r' : Retrieved) → Kept r r' → Within limits r → Within limits r'
Kept-Within limits r r' k w =
    let (c, a, l, t, m) = k.fewer in
    record {
      candidates = omega (arith, c, w.candidates);
      assets = omega (arith, a, w.assets);
      relationships = omega (arith, l, w.relationships);
      tags = omega (arith, t, w.tags);
      alarms = omega (arith, m, w.alarms);
    }

-- The text of a result is within the limits of the request and those of the source.
pub record WithinBudget (limits : Limits) (bytes : ℕ) : Type 0 where
  pub bytes_limit : bytes ≤ limits.max_serialized_bytes
  pub tokens_limit : estimated_tokens bytes ≤ limits.max_estimated_tokens
  pub bytes_maximum : bytes ≤ 65536

within_budget :
    (limits : Limits) (bytes : ℕ)
    → invalid_limits limits ≡ false
    → fits bytes limits ≡ true
    → WithinBudget limits bytes
unfolding invalid_limits fits
within_budget limits bytes valid good = record {
  bytes_limit = ground (arith, good);
  tokens_limit = ground (arith, good);
  bytes_maximum = ground (arith, good, valid);
}

module _ (J : JsonLibrary) (size : Retrieved → ℕ) where
  open J use {Json, Double}

  -- What a call of `retrieve` comes to.
  retrieve-lem :
      (document : Json) (prompt : Bytes) (limits : Limits) (model : Model Double)
      → index_model J document ≡ ok model
      → (retrieve J size document prompt limits ≡ err invalid_request)
        ⊎ ((r : Retrieved) × (retrieve J size document prompt limits ≡ ok r)
            × Kept (first_result model prompt limits) r
            × (fits (size r) r.limits ≡ true)
            × (invalid_limits limits ≡ false))
  unfolding retrieve
  retrieve-lem document prompt limits model accepted =
      elim (Bool-cases (length prompt == 0 || ltb 8192 (length prompt))) [
        | inl refused ↦ inl (ground (arith, accepted, refused))
        | inr proper ↦ elim (Bool-cases (invalid_limits limits)) [
          | inl refused ↦ inl (ground (arith, accepted, proper, refused))
          | inr valid ↦
              let first = first_result model prompt limits in
              elim (fit-lem size (suc (weight first)) first (omega arith)) [
                | inl failed ↦ inl (ground (arith, accepted, proper, valid, failed))
                | inr (r, done, kept, good) ↦
                    inr (r, ground (arith, accepted, proper, valid, done), kept, good, valid)
              ]
        ]
      ]

  -- `retrieve` always ends, whatever the sizes of the JSON texts are: with a result, with
  -- invalid_model, or with invalid_request; the loop has fuel enough.
  pub retrieve_ends :
      (document : Json) (prompt : Bytes) (limits : Limits)
      → (retrieve J size document prompt limits ≡ err invalid_model)
        ⊎ ((retrieve J size document prompt limits ≡ err invalid_request)
            ⊎ ((r : Retrieved) × (retrieve J size document prompt limits ≡ ok r)))
  unfolding retrieve
  retrieve_ends document prompt limits = elim (Result-cases (index_model J document)) [
    | inl (e, refused) ↦ inl (ground (arith, refused))
    | inr (model, accepted) ↦ elim (retrieve-lem document prompt limits model accepted) [
      | inl failed ↦ inr (inl failed)
      | inr (r, done, _, _, _) ↦ inr (inr (r, done))
    ]
  ]

  -- A result for an accepted document came from its first result by the rounds of the loop.
  pub retrieve-Kept :
      (document : Json) (prompt : Bytes) (limits : Limits) (model : Model Double) (r : Retrieved)
      → index_model J document ≡ ok model
      → retrieve J size document prompt limits ≡ ok r
      → Kept (first_result model prompt limits) r
        × (fits (size r) r.limits ≡ true)
        × (invalid_limits limits ≡ false)
  retrieve-Kept document prompt limits model r accepted h =
      elim (retrieve-lem document prompt limits model accepted) [
        | inl failed ↦ absurd (ground (arith, h, failed))
        | inr (r', done, kept, good, valid) ↦
            let same : r' ≡ r = ground (arith, h, done) in
            subst
              (λ (t : Retrieved).
                Kept (first_result model prompt limits) t
                × (fits (size t) t.limits ≡ true)
                × (invalid_limits limits ≡ false))
              same (kept, good, valid)
      ]

  -- A result of `retrieve` lists no more candidates, assets, relationships, tags and alarms than the
  -- request's limits, and its JSON text is within the request's limits of bytes and of tokens and at
  -- most 65536 bytes.
  pub retrieve-bounded :
      (document : Json) (prompt : Bytes) (limits : Limits) (r : Retrieved)
      → retrieve J size document prompt limits ≡ ok r
      → Within limits r × WithinBudget limits (size r)
  unfolding retrieve first_result
  retrieve-bounded document prompt limits r h = elim (Result-cases (index_model J document)) [
    | inl (e, refused) ↦ absurd (ground (arith, refused, h))
    | inr (model, accepted) ↦
        let (kept, good, valid) = retrieve-Kept document prompt limits model r accepted h in
        let first = first_result model prompt limits in
        (
          Kept-Within limits first r kept (first_result-Within model prompt limits),
          within_budget limits (size r) valid
              (subst (λ l. fits (size r) l ≡ true) kept.limits good),
        )
  ]

  -- From the first result for an accepted document to the one that `retrieve` returns, the loop never
  -- removes an eligible candidate, and when at most one asset is eligible, its id stays as well.
  pub retrieve-identity :
      (document : Json) (prompt : Bytes) (limits : Limits) (model : Model Double) (r : Retrieved)
      → index_model J document ≡ ok model
      → retrieve J size document prompt limits ≡ ok r
      → let first = first_result model prompt limits in
        (chosen r.candidates ≡ chosen first.candidates)
        × ((1 < first.eligible_asset_count) ⊎ (r.eligible_asset_ids ≡ first.eligible_asset_ids))
  retrieve-identity document prompt limits model r accepted h =
      let (kept, _, _) = retrieve-Kept document prompt limits model r accepted h in
      let first = first_result model prompt limits in
      elim (leb_cases first.eligible_asset_count) [
        | inl few ↦ (kept.chosen_same, inr (kept.eligible few))
        | inr many ↦ (kept.chosen_same, inl many)
      ]
