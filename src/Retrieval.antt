-- ===== src/Retrieval.antt =====
-- src/context_hmi/context_retrieval.hpp and the data of context_retrieval.cpp. The JSON result that
-- `retrieve` builds is the record `Retrieved`, field by field; its entries for an asset are
-- `Asset` itself, whose four fields are those that the source copies.
pub mod Terms
pub mod Score
pub mod Scope
pub mod Budget
pub mod Call
pub mod Interpretation
pub mod Lists
pub mod Rounds
pub mod Loop
pub mod Entries
pub mod Anchor
pub mod Accept
pub mod Order
pub mod Choice
pub mod Tests
use ctm.Prelude.{ℕ, Bool, List, Bytes}
use ctm.Model.{Asset, Relationship}

pub data Error : Type 0 where
  invalid_model invalid_request interpretation_mismatch : Error
  -- no error of the source: the fuel of the budget's loop has run out
  out_of_fuel : Error

pub record Limits : Type 0 where
  pub candidates : ℕ
  pub assets : ℕ
  pub relationships : ℕ
  pub tags : ℕ
  pub alarms : ℕ
  pub max_serialized_bytes : ℕ
  pub max_estimated_tokens : ℕ

pub data Reason : Type 0 where
  term : Bytes → Reason
  declared_id declared_name declared_alias : Reason

-- `Candidate`.
pub record Scored : Type 0 where
  pub asset : Asset
  pub score : ℕ
  pub reasons : List Reason

-- An entry of `candidates` in the result.
pub record Candidate : Type 0 where
  pub asset_id : Bytes
  pub name : Bytes
  pub kind : Bytes
  pub score : ℕ
  pub eligible : Bool
  pub reasons : List Reason

-- An entry of `scope.tags`.
pub record ScopeTag : Type 0 where
  pub id : Bytes
  pub asset_id : Bytes
  pub name : Bytes
  pub role : Bytes
  pub data_type : Bytes
  pub unit : Bytes

-- An entry of `scope.alarms`.
pub record ScopeAlarm : Type 0 where
  pub id : Bytes
  pub asset_id : Bytes
  pub name : Bytes
  pub tag_id : Bytes
  pub severity : Bytes

-- What was left out. `serialized_bytes` and `estimated_tokens` of the source are always equal: `budget`.
pub record Truncated : Type 0 where
  pub candidates : Bool
  pub assets : Bool
  pub relationships : Bool
  pub tags : Bool
  pub alarms : Bool
  pub measurement_roles : Bool
  pub budget : Bool

pub record Retrieved : Type 0 where
  pub model_id : Bytes
  pub model_revision : ℕ
  pub prompt_terms : List Bytes
  pub task_hints : List Bytes
  pub measurement_role_hints : List Bytes
  pub requested_measurement_role_count : ℕ
  pub specific_asset_reference : Bool
  pub requires_clarification : Bool
  pub eligible_asset_ids : List Bytes
  pub eligible_asset_count : ℕ
  pub candidates : List Candidate
  pub assets : List Asset
  pub relationships : List Relationship
  pub tags : List ScopeTag
  pub alarms : List ScopeAlarm
  pub limits : Limits
  pub truncated : Truncated
