-- ===== src/Retrieval/Call.antt =====
-- `retrieve` of context_retrieval.cpp: its checks, the result that it builds first, and the budget.
use ctm.Prelude.{
  ℕ, suc, ◌+◌, Bool, false, not, ◌&&◌, ◌||◌, List, [], ◌∷◌, Bytes, codes, none, some, ltb, ◌==◌,
  if◌then◌else◌, length, Result, ok, err, ◌>>◌, throw_if,
}
use ctm.Json.{JsonLibrary}
use ctm.Model.{Model, Asset, index_model}
use ctm.Retrieval.{Error, invalid_model, invalid_request, Limits, Retrieved}
use ctm.Retrieval.Terms.{terms_for, task_hints, measurement_role_hints}
use ctm.Retrieval.Score.{scored, specific_reference, eligibility_score}
use ctm.Retrieval.Scope.{
  candidates, eligible_ids, all_eligible_ids, reach, ordered_ids, scope_assets,
  relevant_relationships, measurement_scope, role_source_tags, ordered_tags, scope_tags,
  relevant_alarms, scope_alarms,
}
use ctm.Retrieval.Budget.{fit}
use ctm.Prelude.{take}

abbrev pub maximum_prompt : ℕ
maximum_prompt = 8192

abbrev pub minimum_serialized_bytes : ℕ
minimum_serialized_bytes = 1024

abbrev pub maximum_serialized_bytes : ℕ
maximum_serialized_bytes = 65536

abbrev pub minimum_estimated_tokens : ℕ
minimum_estimated_tokens = 256

abbrev pub maximum_estimated_tokens : ℕ
maximum_estimated_tokens = 16384

unfoldable pub invalid_limits : Limits → Bool
invalid_limits limits =
    limits.candidates == 0
    || limits.assets == 0
    || limits.relationships == 0
    || limits.tags == 0
    || limits.alarms == 0
    || ltb limits.max_serialized_bytes minimum_serialized_bytes
    || ltb maximum_serialized_bytes limits.max_serialized_bytes
    || ltb limits.max_estimated_tokens minimum_estimated_tokens
    || ltb maximum_estimated_tokens limits.max_estimated_tokens

unfoldable pub hints : List Bytes → List Bytes → List Bytes
hints prompt_terms roles =
    let found = task_hints prompt_terms in
    if (length found == 0) && not (length roles == 0) then codes "overview" ∷ [] else found

-- The result before the loop of the budget.
unfoldable pub first_result : {D : Type 0} → Model D → Bytes → Limits → Retrieved
first_result model prompt limits =
    let prompt_terms = terms_for prompt in
    let items = scored model.assets prompt_terms in
    let specific = specific_reference model.assets prompt prompt_terms items in
    let best = eligibility_score items in
    let listed = candidates limits.candidates best items in
    let eligible = eligible_ids listed in
    let all_eligible = all_eligible_ids best items eligible in
    let (scope, cut) = reach model limits.assets specific eligible in
    let assets =
      scope_assets limits.assets (ordered_ids model.assets scope eligible) model.assets in
    let relationships = relevant_relationships model.relationships scope in
    let measured = measurement_scope eligible scope in
    let tags = role_source_tags model.tags measured in
    let roles = measurement_role_hints tags prompt_terms in
    let alarms = relevant_alarms model.alarms measured in
    record {
      model_id = model.model_id;
      model_revision = model.revision;
      prompt_terms = prompt_terms;
      task_hints = hints prompt_terms roles;
      measurement_role_hints = roles;
      requested_measurement_role_count = length roles;
      specific_asset_reference = specific;
      requires_clarification = ltb 1 (length all_eligible) || specific && (length eligible == 0);
      eligible_asset_ids = eligible;
      eligible_asset_count = length all_eligible;
      candidates = listed;
      assets = assets;
      relationships = take limits.relationships relationships;
      tags = scope_tags limits.tags (ordered_tags roles tags);
      alarms = scope_alarms limits.alarms alarms;
      limits = limits;
      truncated = record {
        candidates =
            ltb (length listed) (length items) || ltb (length eligible) (length all_eligible);
        assets = cut || ltb (length assets) (length scope);
        relationships = ltb limits.relationships (length relationships);
        tags = ltb limits.tags (length tags);
        alarms = ltb limits.alarms (length alarms);
        measurement_roles = false;
        budget = false;
      };
    }

-- The number of the assets with aliases.
unfoldable pub with_aliases : List Asset → ℕ
with_aliases [] = 0
with_aliases (asset ∷ assets) = elim asset.aliases [
  | none ↦ with_aliases assets
  | some _ ↦ suc (with_aliases assets)
]

-- The entries that the loop can remove: enough rounds, and so enough fuel.
unfoldable pub weight : Retrieved → ℕ
weight r =
    length r.candidates
    + length r.assets
    + with_aliases r.assets
    + length r.relationships
    + length r.alarms
    + length r.tags
    + length r.measurement_role_hints
    + length r.prompt_terms
    + length r.eligible_asset_ids

module _ (J : JsonLibrary) (size : Retrieved → ℕ) where
  open J use {Json}

  unfoldable pub retrieve : Json → Bytes → Limits → Result Error Retrieved
  retrieve document prompt limits = elim (index_model J document) [
    | err _ ↦ err invalid_model
    | ok model ↦ do
      throw_if (length prompt == 0 || ltb maximum_prompt (length prompt)) invalid_request
      throw_if (invalid_limits limits) invalid_request
      let first = first_result model prompt limits
      fit size (suc (weight first)) first
  ]
