-- ===== src/Retrieval/Accept.antt =====
-- What `retrieve` and then `validate_interpretation_scope` of context_retrieval.cpp let through.
use ctm.Prelude.{
  ℕ, ◌≤◌, ◌≡◌, refl, ap, sym, ◌∙◌, subst, Bool, true, false, ◌||◌, List, [], ◌∷◌, Bytes,
  bytes_eq_iff, Option, none, some, Bool-cases, inl, inr, ◌⊎◌, arith, length, map, all_of, ltb,
  ◌==◌, ok,
}
use ctm.Json.{JsonLibrary}
use ctm.Model.{Model, known, asset_ids, index_model}
use ctm.Retrieval.{ScopeTag, Limits, Retrieved}
use ctm.Retrieval.Call.{first_result, retrieve}
use ctm.Retrieval.Interpretation.{
  Task, ready, kind_conflicts, model_has_asset, check_anchor, check_roles,
  validate_interpretation_scope,
}
use ctm.Retrieval.Loop.{retrieve-Kept}
use ctm.Retrieval.Terms.{terms_for}
use ctm.Retrieval.Anchor.{
  RefersToNone, RefersTo, specific_reference-RefersToNone, eligible-RefersTo,
  length-all_eligible_ids,
}

known-singleton :
    (id : Bytes) (ids : List Bytes) → known id ids ≡ true → length ids ≤ 1 → ids ≡ id ∷ []
unfolding known
known-singleton id [] h few = absurd (ground arith)
known-singleton id (i ∷ []) h few = ap (λ x. x ∷ []) (sym ((bytes_eq_iff id i).0 (ground arith)))
known-singleton id (i ∷ j ∷ ids) h few = absurd (omega arith)

at_most_one : (n : ℕ) (b : Bool) → (ltb 1 n || b) ≡ false → n ≤ 1
at_most_one n b h = ground (arith, h)

-- A first result that needs no clarification has at most one eligible asset.
first_result-settled :
    {D : Type 0} (model : Model D) (prompt : Bytes) (limits : Limits)
    → let first = first_result model prompt limits in
      first.requires_clarification ≡ false
      → (first.eligible_asset_count ≤ 1) × (length first.eligible_asset_ids ≤ 1)
unfolding first_result
first_result-settled model prompt limits h =
    let few = at_most_one _ _ h in
    (
      few,
      omega (
        arith,
        few,
        length-all_eligible_ids _ _ (first_result model prompt limits).eligible_asset_ids,
      ),
    )

-- The only hint is the kind of the task.
abbrev pub KindAgrees : List Bytes → Bytes → Type 0
KindAgrees (hint ∷ []) kind = kind ≡ hint
KindAgrees _ kind = Unit

-- Without an anchor the prompt refers to no asset; an anchor among the ids of the model is the one
-- eligible asset, and the one that the prompt refers to.
abbrev pub AnchorAgrees : {D : Type 0} → Model D → List Bytes → Retrieved → Option Bytes → Type 0
AnchorAgrees model terms r none = RefersToNone model.assets terms
AnchorAgrees model terms r (some id) =
    (known id (asset_ids model.assets) ≡ false)
    ⊎ ((r.eligible_asset_ids ≡ id ∷ []) × RefersTo model.assets terms id)

-- The named roles are roles of listed tags, and the hinted roles are named.
abbrev pub RolesAgree : Retrieved → Option (List Bytes) → Type 0
RolesAgree r none = r.measurement_role_hints ≡ []
RolesAgree r (some named) =
    (all_of (λ role. known role (map (λ (tag : ScopeTag). tag.role) r.tags)) named ≡ true)
    × (all_of (λ role. known role named) r.measurement_role_hints ≡ true)

-- A task that agrees with a result of `retrieve`.
pub record Agrees {D : Type 0} (model : Model D) (terms : List Bytes) (first r : Retrieved)
    (task : Task) : Type 0 where
  pub all_roles : r.measurement_role_hints ≡ first.measurement_role_hints
  pub kind : KindAgrees r.task_hints task.kind
  pub anchor : AnchorAgrees model terms r task.anchor_asset_id
  pub roles : RolesAgree r task.measurement_roles

length-zero {ℓ} : {A : Type ℓ} (xs : List A) → (length xs == 0) ≡ true → xs ≡ []
length-zero [] h = refl
length-zero (x ∷ xs) h = absurd (ground arith)

check_kind :
    (hints : List Bytes) (kind : Bytes) → kind_conflicts hints kind ≡ false → KindAgrees hints kind
unfolding kind_conflicts
check_kind [] kind h = tt
check_kind (hint ∷ []) kind h = (bytes_eq_iff kind hint).0 (ground (arith, h))
check_kind (hint ∷ other ∷ hints) kind h = tt

-- The first result against the prompt.
first_result-RefersToNone :
    {D : Type 0} (model : Model D) (prompt : Bytes) (limits : Limits)
    → (first_result model prompt limits).specific_asset_reference ≡ false
    → RefersToNone model.assets (terms_for prompt)
unfolding first_result
first_result-RefersToNone model prompt limits h =
    specific_reference-RefersToNone model.assets prompt (terms_for prompt) h

first_result-RefersTo :
    {D : Type 0} (model : Model D) (prompt : Bytes) (limits : Limits) (id : Bytes)
    → (first_result model prompt limits).eligible_asset_ids ≡ id ∷ []
    → (first_result model prompt limits).eligible_asset_count ≤ 1
    → RefersTo model.assets (terms_for prompt) id
unfolding first_result
first_result-RefersTo model prompt limits id h few =
    eligible-RefersTo model.assets (terms_for prompt) limits.candidates id h few

-- What the check of an anchor leaves.
abbrev AnchorChecked : {D : Type 0} → Model D → Retrieved → Option Bytes → Type 0
AnchorChecked model r none = r.specific_asset_reference ≡ false
AnchorChecked model r (some id) =
    (known id (asset_ids model.assets) ≡ false) ⊎ (r.eligible_asset_ids ≡ id ∷ [])

check_anchor-eq_ok :
    {D : Type 0} (model : Model D) (r : Retrieved) (anchor : Option Bytes)
    → check_anchor model.assets r anchor ≡ ok tt
    → length r.eligible_asset_ids ≤ 1
    → AnchorChecked model r anchor
unfolding check_anchor model_has_asset
check_anchor-eq_ok model r none h few = ground (arith, h)
check_anchor-eq_ok model r (some id) h few = elim (Bool-cases (known id (asset_ids model.assets))) [
  | inl is_asset ↦ inr (known-singleton id r.eligible_asset_ids (ground (arith, h, is_asset)) few)
  | inr other ↦ inl other
]

check_anchor-Agrees :
    {D : Type 0} (model : Model D) (prompt : Bytes) (limits : Limits) (r : Retrieved)
    (anchor : Option Bytes)
    → let first = first_result model prompt limits in
      r.specific_asset_reference ≡ first.specific_asset_reference
      → r.eligible_asset_ids ≡ first.eligible_asset_ids
      → first.eligible_asset_count ≤ 1
      → length first.eligible_asset_ids ≤ 1
      → check_anchor model.assets r anchor ≡ ok tt
      → AnchorAgrees model (terms_for prompt) r anchor
check_anchor-Agrees model prompt limits r none specific eligible one few h =
    first_result-RefersToNone model prompt limits (
      sym specific
      ∙ check_anchor-eq_ok model r none h (subst (λ ids. length ids ≤ 1) (sym eligible) few))
check_anchor-Agrees model prompt limits r (some id) specific eligible one few h =
    elim (check_anchor-eq_ok model r (some id) h
      (subst (λ ids. length ids ≤ 1) (sym eligible) few)) [
        | inl other ↦ inl other
        | inr only ↦
            inr (only, first_result-RefersTo model prompt limits id (sym eligible ∙ only) one)
      ]

check_roles-Agrees :
    (r : Retrieved) (roles : Option (List Bytes)) → check_roles r roles ≡ ok tt → RolesAgree r roles
unfolding check_roles
check_roles-Agrees r none h = length-zero r.measurement_role_hints (ground (arith, h))
check_roles-Agrees r (some named) h = ground (arith, h)

-- The checks of a ready interpretation that succeeds.
validate_interpretation_scope-eq_ok :
    {D : Type 0} (model : Model D) (r : Retrieved) (task : Task)
    → validate_interpretation_scope model.assets r (ready task) ≡ ok tt
    → (kind_conflicts r.task_hints task.kind ≡ false)
      × (r.requires_clarification ≡ false)
      × (check_anchor model.assets r task.anchor_asset_id ≡ ok tt)
      × (check_roles r task.measurement_roles ≡ ok tt)
unfolding validate_interpretation_scope
validate_interpretation_scope-eq_ok model r task h = ground (arith, h)

module _ (J : JsonLibrary) (size : Retrieved → ℕ) where
  open J use {Json, Double}

  -- A ready task that validate_interpretation_scope accepts, against a result of `retrieve` for an accepted document, agrees with
  -- the request: none of its measurement roles was dropped, the task has the only hinted kind, an anchor
  -- that is an asset of the model is the one eligible asset, scores at least 12 for the prompt, and every asset with
  -- another id scores less; no anchor means that the prompt has no number and no word of an asset's kind, and no asset
  -- scores 80 for it; and the task's roles are among those of the listed tags and contain every hinted role.
  pub retrieve-Agrees :
      (document : Json) (prompt : Bytes) (limits : Limits) (model : Model Double) (r : Retrieved)
      (task : Task)
      → index_model J document ≡ ok model
      → retrieve J size document prompt limits ≡ ok r
      → validate_interpretation_scope model.assets r (ready task) ≡ ok tt
      → Agrees model (terms_for prompt) (first_result model prompt limits) r task
  retrieve-Agrees document prompt limits model r task accepted h v =
      let first = first_result model prompt limits in
      let (kept, _, _) = retrieve-Kept J size document prompt limits model r accepted h in
      let (kind, settled, anchor, roles) = validate_interpretation_scope-eq_ok model r task v in
      let (clear, same_roles) = kept.settled settled in
      let (one, few) = first_result-settled model prompt limits clear in
      record {
        all_roles = same_roles;
        kind = check_kind r.task_hints task.kind kind;
        anchor =
            check_anchor-Agrees model prompt limits r task.anchor_asset_id kept.specific
              (kept.eligible one) one few anchor;
        roles = check_roles-Agrees r task.measurement_roles roles;
      }
