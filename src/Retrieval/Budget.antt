-- ===== src/Retrieval/Budget.antt =====
-- The loop of `retrieve` in context_retrieval.cpp that removes entries until the result is within its
-- budget. `size` is the length of the JSON text of a result, `value.dump().size()`.
use ctm.Prelude.{
  ℕ, zero, suc, ◌+◌, ◌/◌, Bool, true, not, ◌&&◌, List, [], ◌∷◌, Option, none, some, leb, ltb,
  if◌then◌else◌, length, Result, ok, err,
}
use mathlib.Core.Option
use ctm.Model.{Asset, known}
use ctm.Retrieval.{Error, invalid_request, out_of_fuel, Limits, Candidate, Retrieved}

unfoldable pub estimated_tokens : ℕ → ℕ
estimated_tokens serialized_bytes = (serialized_bytes + 3) / 4

unfoldable pub fits : ℕ → Limits → Bool
fits bytes limits =
    leb bytes limits.max_serialized_bytes
    && leb (estimated_tokens bytes) limits.max_estimated_tokens

-- Without the last element that satisfies the test.
unfoldable pub remove_last {ℓ} : {A : Type ℓ} → (A → Bool) → List A → Option (List A)
remove_last p [] = none
remove_last p (x ∷ xs) = elim (remove_last p xs) [
  | some ys ↦ some (x ∷ ys)
  | none ↦ if p x then some xs else none
]

-- `erase(prev(end))`, if the list is not empty.
unfoldable pub erase_last {ℓ} : {A : Type ℓ} → List A → Option (List A)
erase_last = remove_last (λ _. true)

unfoldable pub drop_aliases : List Asset → Option (List Asset)
drop_aliases [] = none
drop_aliases (asset ∷ assets) = elim asset.aliases [
  | some _ ↦ some (record asset { aliases = none } ∷ assets)
  | none ↦ elim (drop_aliases assets) [ none ↦ none | some rest ↦ some (asset ∷ rest) ]
]

-- An attempt of a round: the changed result, if there is something to remove.
abbrev pub Attempt : Type 0
Attempt = Retrieved → Option Retrieved

unfoldable pub remove_candidate : Attempt
remove_candidate r =
    Option.map
      (λ rest. record r { candidates = rest; truncated = record r.truncated { candidates = true } })
      (remove_last (λ (c : Candidate). not c.eligible) r.candidates)

unfoldable pub remove_asset : Attempt
remove_asset r =
    Option.map
      (λ rest. record r { assets = rest; truncated = record r.truncated { assets = true } })
      (remove_last (λ (a : Asset). not (known a.id r.eligible_asset_ids)) r.assets)

unfoldable pub remove_relationship : Attempt
remove_relationship r =
    Option.map
      (λ rest. record r {
        relationships = rest;
        truncated = record r.truncated { relationships = true };
      })
      (erase_last r.relationships)

unfoldable pub remove_alarm : Attempt
remove_alarm r =
    Option.map
      (λ rest. record r { alarms = rest; truncated = record r.truncated { alarms = true } })
      (erase_last r.alarms)

unfoldable pub remove_tag : Attempt
remove_tag r =
    if ltb (length r.measurement_role_hints) (length r.tags)
    then Option.map
        (λ rest. record r { tags = rest; truncated = record r.truncated { tags = true } })
        (erase_last r.tags)
    else none

unfoldable pub remove_role : Attempt
remove_role r =
    Option.map
      (λ rest. record r {
        measurement_role_hints = rest;
        requires_clarification = true;
        truncated = record r.truncated { measurement_roles = true };
      })
      (erase_last r.measurement_role_hints)

unfoldable pub remove_aliases : Attempt
remove_aliases r =
    Option.map
      (λ rest. record r { assets = rest; truncated = record r.truncated { assets = true } })
      (drop_aliases r.assets)

unfoldable pub remove_term : Attempt
remove_term r = Option.map (λ rest. record r { prompt_terms = rest }) (erase_last r.prompt_terms)

unfoldable pub remove_eligible : Attempt
remove_eligible r =
    if ltb 1 r.eligible_asset_count
    then Option.map (λ rest. record r { eligible_asset_ids = rest })
        (erase_last r.eligible_asset_ids)
    else none

-- The first attempt that changes something.
unfoldable pub first_change : List Attempt → Attempt
first_change [] r = none
first_change (attempt ∷ attempts) r = elim (attempt r) [
  | some changed ↦ some changed
  | none ↦ first_change attempts r
]

abbrev pub attempts : List Attempt
attempts =
    remove_candidate ∷ remove_asset ∷ remove_relationship ∷ remove_alarm ∷ remove_tag ∷ remove_role
    ∷ remove_aliases ∷ remove_term ∷ remove_eligible ∷ []

-- A round of the loop.
unfoldable pub shrink : Attempt
shrink r = elim (first_change attempts r) [
  | none ↦ none
  | some changed ↦ some (record changed { truncated = record changed.truncated { budget = true } })
]

-- The loop, on fuel.
unfoldable pub fit : (Retrieved → ℕ) → ℕ → Retrieved → Result Error Retrieved
fit size zero r = err out_of_fuel
fit size (suc fuel) r =
    if fits (size r) r.limits
    then ok r
    else elim (shrink r) [ none ↦ err invalid_request | some smaller ↦ fit size fuel smaller ]
