-- ===== src/Retrieval/Interpretation.antt =====
-- `validate_interpretation_scope` of context_retrieval.cpp, on an interpretation whose form has been
-- checked and a result of `retrieve`.
use ctm.Prelude.{
  Bool, false, not, ◌&&◌, List, [], ◌∷◌, Bytes, bytes_eq, Option, none, some, ◌==◌, length, map,
  all_of, Result, ok, ◌>>◌, throw_if,
}
use ctm.Model.{Asset, known, asset_ids}
use ctm.Retrieval.{Error, interpretation_mismatch, ScopeTag, Retrieved}

-- The fields of `task` that are read.
pub record Task : Type 0 where
  pub kind : Bytes
  pub anchor_asset_id : Option Bytes
  pub measurement_roles : Option (List Bytes)

-- `status`, whether it is "ready", with the task of one that is.
pub data Interpretation : Type 0 where
  ready : Task → Interpretation
  not_ready : Interpretation

unfoldable pub kind_conflicts : List Bytes → Bytes → Bool
kind_conflicts (hint ∷ []) kind = not (bytes_eq kind hint)
kind_conflicts _ kind = false

-- `model_has_asset`
unfoldable pub model_has_asset : List Asset → Bytes → Bool
model_has_asset assets id = known id (asset_ids assets)

unfoldable pub check_anchor : List Asset → Retrieved → Option Bytes → Result Error (Unit {0})
check_anchor assets retrieval none =
    throw_if retrieval.specific_asset_reference interpretation_mismatch
check_anchor assets retrieval (some id) =
    throw_if (model_has_asset assets id && not (known id retrieval.eligible_asset_ids))
      interpretation_mismatch

unfoldable pub check_roles : Retrieved → Option (List Bytes) → Result Error (Unit {0})
check_roles retrieval none =
    throw_if (not (length retrieval.measurement_role_hints == 0)) interpretation_mismatch
check_roles retrieval (some roles) = do
  let available = map (λ (tag : ScopeTag). tag.role) retrieval.tags
  throw_if (not (all_of (λ role. known role available) roles)) interpretation_mismatch
  throw_if (not (all_of (λ role. known role roles) retrieval.measurement_role_hints))
      interpretation_mismatch

unfoldable pub validate_interpretation_scope :
    List Asset → Retrieved → Interpretation → Result Error (Unit {0})
validate_interpretation_scope assets retrieval not_ready = ok tt
validate_interpretation_scope assets retrieval (ready task) = do
  throw_if (kind_conflicts retrieval.task_hints task.kind) interpretation_mismatch
  throw_if retrieval.requires_clarification interpretation_mismatch
  check_anchor assets retrieval task.anchor_asset_id
  check_roles retrieval task.measurement_roles
