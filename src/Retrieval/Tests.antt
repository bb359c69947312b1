-- ===== src/Retrieval/Tests.antt =====
-- The theorems about context_retrieval.cpp at a small plant: a request that names its tank, and a JSON library
-- whose texts are so long that the budget's loop has to run.
use ctm.Prelude.{
  ℕ, ◌+◌, ◌*◌, ◌<◌, ◌≡◌, refl, ◌⊎◌, [], ◌∷◌, Bytes, Bytes-discrete, codes, some, ok, err, All, find,
  any_of, all_of,
}
use ctm.Json.{member}
use ctm.Json.Values.{values}
use ctm.Model.{
  known, find_tag, read_all, read_alias, read_aliases, asset_fields, read_asset,
  relationship_fields, read_relationship, asset_ids, source_field, tag_fields, read_tag,
  alarm_fields, read_alarm, revision_field, model_fields, model_arrays, read_model, index_model,
}
use ctm.Model.Fields.{
  lower, is_one_of, valid_identity, required, clean_text, string_field, identity_field, allow_only,
  unit_field, bounded_array, optional_string, metadata_field, nonnegative_integer,
}
use ctm.Model.Tests.{plant, accepted}
use ctm.Retrieval.{invalid_model, invalid_request, Limits, Candidate, Retrieved}
use ctm.Retrieval.Terms.{
  insert, sort, bytes_less, unique, sorted_set, ascii_alphanumeric, canonical_term, lowered,
  split_terms, terms_for, all_present, starts_with, occurs, has_scope_phrase, filter, numeric_terms,
  concat_terms, asset_terms, task_hints, measurement_role_hints,
}
use ctm.Retrieval.Score.{
  kind_mentioned, number_conflict, term_part, declared_part, alias_part, score_asset, before,
  scored, specific_reference, eligibility_score,
}
use ctm.Retrieval.Scope.{
  is_eligible, candidates, eligible_ids, all_eligible_ids, add_id, add_all, first_assets,
  add_neighbour, add_neighbours, reach, ordered_ids, find_asset, scope_assets,
  relevant_relationships, measurement_scope, role_source_tags, add_role_tag, add_role_tags,
  add_other_tags, ordered_tags, scope_tags, relevant_alarms, scope_alarms,
}
use ctm.Retrieval.Budget.{
  estimated_tokens, fits, remove_last, erase_last, drop_aliases, remove_candidate, remove_asset,
  remove_relationship, remove_alarm, remove_tag, remove_role, remove_aliases, remove_term,
  remove_eligible, first_change, shrink, fit,
}
use ctm.Retrieval.Call.{invalid_limits, hints, first_result, with_aliases, weight, retrieve}
use ctm.Retrieval.Interpretation.{
  Task, ready, kind_conflicts, model_has_asset, check_anchor, check_roles,
  validate_interpretation_scope,
}
use ctm.Retrieval.Rounds.{chosen}
use ctm.Retrieval.Loop.{Within, WithinBudget, retrieve_ends, retrieve-bounded, retrieve-identity}
use ctm.Retrieval.Accept.{Agrees, retrieve-Agrees}
use ctm.Retrieval.Order.{Best}
use ctm.Retrieval.Choice.{retrieve-Best}

abbrev limits : Limits
limits = record {
  candidates = 12;
  assets = 16;
  relationships = 64;
  tags = 128;
  alarms = 128;
  max_serialized_bytes = 12288;
  max_estimated_tokens = 3072;
}

abbrev prompt : Bytes
prompt = codes "Level of tank one"

-- The length of the JSON text of a result.
abbrev size : Retrieved → ℕ
unfolding weight with_aliases
size r = 12000 + 28 * weight r

abbrev result : (r : Retrieved) × (retrieve values size plant prompt limits ≡ ok r)
unfolding member find any_of all_of Bytes-discrete known find_tag read_all read_alias read_aliases
    asset_fields read_asset relationship_fields read_relationship source_field tag_fields read_tag
    alarm_fields read_alarm revision_field model_fields model_arrays read_model index_model lower
    is_one_of valid_identity required clean_text string_field identity_field allow_only unit_field
    bounded_array optional_string metadata_field nonnegative_integer insert sort bytes_less unique
    sorted_set ascii_alphanumeric canonical_term lowered split_terms terms_for all_present
    starts_with occurs has_scope_phrase filter numeric_terms concat_terms asset_terms task_hints
    measurement_role_hints kind_mentioned number_conflict term_part declared_part alias_part
    score_asset before scored specific_reference eligibility_score is_eligible candidates
    eligible_ids all_eligible_ids add_id add_all first_assets add_neighbour add_neighbours reach
    ordered_ids find_asset scope_assets relevant_relationships measurement_scope role_source_tags
    add_role_tag add_role_tags add_other_tags ordered_tags scope_tags relevant_alarms scope_alarms
    estimated_tokens fits remove_last erase_last drop_aliases remove_candidate remove_asset
    remove_relationship remove_alarm remove_tag remove_role remove_aliases remove_term
    remove_eligible first_change shrink fit invalid_limits hints first_result with_aliases weight
    retrieve
result = (_, refl)

-- The tank is the only eligible asset, and the rounds took away the pump and the pipe.
result_names :
    (result.0.eligible_asset_ids ≡ codes "t1" ∷ [])
    × (result.0.relationships ≡ [])
    × (asset_ids result.0.assets ≡ codes "t1" ∷ [])
    × (result.0.measurement_role_hints ≡ codes "level" ∷ [])
unfolding result
result_names = (refl, refl, refl, refl)

retrieve_ends_example :
    (retrieve values size plant prompt limits ≡ err invalid_model)
    ⊎ ((retrieve values size plant prompt limits ≡ err invalid_request)
        ⊎ ((r : Retrieved) × (retrieve values size plant prompt limits ≡ ok r)))
retrieve_ends_example = retrieve_ends values size plant prompt limits

retrieve-bounded_example : Within limits result.0 × WithinBudget limits (size result.0)
retrieve-bounded_example = retrieve-bounded values size plant prompt limits result.0 result.1

retrieve-identity_example :
    let first = first_result accepted.0 prompt limits in
    (chosen result.0.candidates ≡ chosen first.candidates)
    × ((1 < first.eligible_asset_count) ⊎ (result.0.eligible_asset_ids ≡ first.eligible_asset_ids))
retrieve-identity_example =
    retrieve-identity values size plant prompt limits accepted.0 result.0 accepted.1 result.1

retrieve-Best_example :
    All
      (λ (c : Candidate). Best accepted.0.assets (terms_for prompt) c.score)
      (chosen result.0.candidates)
retrieve-Best_example =
    retrieve-Best values size plant prompt limits accepted.0 result.0 accepted.1 result.1

abbrev task : Task
task = record {
  kind = codes "overview";
  anchor_asset_id = some (codes "t1");
  measurement_roles = some (codes "level" ∷ []);
}

task_passes : validate_interpretation_scope accepted.0.assets result.0 (ready task) ≡ ok tt
unfolding result known any_of all_of kind_conflicts model_has_asset check_anchor check_roles
    validate_interpretation_scope
task_passes = refl

retrieve-Agrees_example :
    Agrees accepted.0 (terms_for prompt) (first_result accepted.0 prompt limits) result.0 task
retrieve-Agrees_example =
    retrieve-Agrees values size plant prompt limits accepted.0 result.0 task accepted.1 result.1
      task_passes
