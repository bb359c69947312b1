-- ===== src/Retrieval/Rounds.antt =====
-- What one round of the budget's loop in context_retrieval.cpp changes.
use ctm.Prelude.{
  ◌<◌, ◌≤◌, ◌≡◌, refl, ap, sym, ◌∙◌, subst, Bool, true, false, not, List, [], ◌∷◌, Option, none,
  some, Option-cases, inl, inr, arith, length, length-map, All, ltb, if◌then◌else◌,
}
use mathlib.Core.Option
use ctm.Model.{Asset, asset_ids}
use ctm.Retrieval.{Candidate, Retrieved}
use ctm.Retrieval.Terms.{filter}
use ctm.Retrieval.Budget.{
  Attempt, remove_candidate, remove_asset, remove_relationship, remove_alarm, remove_tag,
  remove_role, remove_aliases, remove_term, remove_eligible, first_change, attempts, shrink,
}
use ctm.Retrieval.Call.{weight}
use ctm.Retrieval.Lists.{
  length-OneOut, remove_last-OneOut, erase_last-OneOut, filter-remove_last, with_aliases-OneOut,
  drop_aliases-lem,
}

-- The candidates that are eligible.
abbrev pub chosen : List Candidate → List Candidate
chosen = filter (λ (c : Candidate). c.eligible)

-- No list grows.
abbrev pub Fewer : Retrieved → Retrieved → Type 0
Fewer r r' =
    (length r'.candidates ≤ length r.candidates)
    × (length r'.assets ≤ length r.assets)
    × (length r'.relationships ≤ length r.relationships)
    × (length r'.tags ≤ length r.tags)
    × (length r'.alarms ≤ length r.alarms)

-- What the rounds keep of a result.
pub record Kept (r r' : Retrieved) : Type 0 where
  pub limits : r'.limits ≡ r.limits
  pub count : r'.eligible_asset_count ≡ r.eligible_asset_count
  pub specific : r'.specific_asset_reference ≡ r.specific_asset_reference
  pub chosen_same : chosen r'.candidates ≡ chosen r.candidates
  pub eligible : r.eligible_asset_count ≤ 1 → r'.eligible_asset_ids ≡ r.eligible_asset_ids
  pub settled :
      r'.requires_clarification ≡ false
      → (r.requires_clarification ≡ false) × (r'.measurement_role_hints ≡ r.measurement_role_hints)
  pub fewer : Fewer r r'

-- A round keeps these and makes the result lighter.
abbrev pub Round : Retrieved → Retrieved → Type 0
Round r r' = Kept r r' × (weight r' < weight r)

abbrev pub Safe : Attempt → Type 0
Safe attempt = (r r' : Retrieved) → attempt r ≡ some r' → Round r r'

if_some {ℓ} :
    {A : Type ℓ} (b : Bool) (o : Option A) {a : A}
    → (if b then o else none) ≡ some a
    → (b ≡ true) × (o ≡ some a)
if_some true o h = (refl, h)
if_some false o h = absurd (ground arith)

length_of_ids : (ys xs : List Asset) → asset_ids ys ≡ asset_ids xs → length ys ≡ length xs
length_of_ids ys xs same =
    sym (length-map (λ (asset : Asset). asset.id) ys)
    ∙ ap length same
    ∙ length-map (λ (asset : Asset). asset.id) xs

remove_candidate-Safe : Safe remove_candidate
unfolding remove_candidate weight
remove_candidate-Safe r r' h =
    let (rest, e, same) = (Option.map-eq-some_iff _ _).0 h in
    let less = length-OneOut (remove_last-OneOut _ r.candidates e) in
    subst (Round r) same (
      record {
        limits = refl;
        count = refl;
        specific = refl;
        chosen_same =
            filter-remove_last (λ (c : Candidate). not c.eligible) (λ (c : Candidate). c.eligible)
              (λ _. refl) r.candidates e;
        eligible = λ _. refl;
        settled = λ h. (h, refl);
        fewer = ground (arith, less);
      },
      omega (arith, less),
    )

remove_asset-Safe : Safe remove_asset
unfolding remove_asset weight
remove_asset-Safe r r' h =
    let (rest, e, same) = (Option.map-eq-some_iff _ _).0 h in
    let less = length-OneOut (remove_last-OneOut _ r.assets e) in
    let bare = with_aliases-OneOut (remove_last-OneOut _ r.assets e) in
    subst (Round r) same (
      record {
        limits = refl;
        count = refl;
        specific = refl;
        chosen_same = refl;
        eligible = λ _. refl;
        settled = λ h. (h, refl);
        fewer = ground (arith, less);
      },
      omega (arith, less, bare),
    )

remove_relationship-Safe : Safe remove_relationship
unfolding remove_relationship weight
remove_relationship-Safe r r' h =
    let (rest, e, same) = (Option.map-eq-some_iff _ _).0 h in
    let less = length-OneOut (erase_last-OneOut r.relationships e) in
    subst (Round r) same (
      record {
        limits = refl;
        count = refl;
        specific = refl;
        chosen_same = refl;
        eligible = λ _. refl;
        settled = λ h. (h, refl);
        fewer = ground (arith, less);
      },
      omega (arith, less),
    )

remove_alarm-Safe : Safe remove_alarm
unfolding remove_alarm weight
remove_alarm-Safe r r' h =
    let (rest, e, same) = (Option.map-eq-some_iff _ _).0 h in
    let less = length-OneOut (erase_last-OneOut r.alarms e) in
    subst (Round r) same (
      record {
        limits = refl;
        count = refl;
        specific = refl;
        chosen_same = refl;
        eligible = λ _. refl;
        settled = λ h. (h, refl);
        fewer = ground (arith, less);
      },
      omega (arith, less),
    )

remove_tag-Safe : Safe remove_tag
unfolding remove_tag weight
remove_tag-Safe r r' h =
    let (rest, e, same) =
      (Option.map-eq-some_iff _ _).0
        (if_some (ltb (length r.measurement_role_hints) (length r.tags)) _ h).1 in
    let less = length-OneOut (erase_last-OneOut r.tags e) in
    subst (Round r) same (
      record {
        limits = refl;
        count = refl;
        specific = refl;
        chosen_same = refl;
        eligible = λ _. refl;
        settled = λ h. (h, refl);
        fewer = ground (arith, less);
      },
      omega (arith, less),
    )

remove_role-Safe : Safe remove_role
unfolding remove_role weight
remove_role-Safe r r' h =
    let (rest, e, same) = (Option.map-eq-some_iff _ _).0 h in
    let less = length-OneOut (erase_last-OneOut r.measurement_role_hints e) in
    subst (Round r) same (
      record {
        limits = refl;
        count = refl;
        specific = refl;
        chosen_same = refl;
        eligible = λ _. refl;
        settled = λ h. absurd (ground arith);
        fewer = ground arith;
      },
      omega (arith, less),
    )

remove_aliases-Safe : Safe remove_aliases
unfolding remove_aliases weight
remove_aliases-Safe r r' h =
    let (rest, e, same) = (Option.map-eq-some_iff _ _).0 h in
    let (ids, less) = drop_aliases-lem r.assets e in
    let same_length = length_of_ids rest r.assets ids in
    subst (Round r) same (
      record {
        limits = refl;
        count = refl;
        specific = refl;
        chosen_same = refl;
        eligible = λ _. refl;
        settled = λ h. (h, refl);
        fewer = ground (arith, same_length);
      },
      omega (arith, less, same_length),
    )

remove_term-Safe : Safe remove_term
unfolding remove_term weight
remove_term-Safe r r' h =
    let (rest, e, same) = (Option.map-eq-some_iff _ _).0 h in
    let less = length-OneOut (erase_last-OneOut r.prompt_terms e) in
    subst (Round r) same (
      record {
        limits = refl;
        count = refl;
        specific = refl;
        chosen_same = refl;
        eligible = λ _. refl;
        settled = λ h. (h, refl);
        fewer = ground arith;
      },
      omega (arith, less),
    )

remove_eligible-Safe : Safe remove_eligible
unfolding remove_eligible weight
remove_eligible-Safe r r' h =
    let (rest, e, same) =
      (Option.map-eq-some_iff _ _).0 (if_some (ltb 1 r.eligible_asset_count) _ h).1 in
    let less = length-OneOut (erase_last-OneOut r.eligible_asset_ids e) in
    subst (Round r) same (
      record {
        limits = refl;
        count = refl;
        specific = refl;
        chosen_same = refl;
        eligible =
            λ one. absurd (ground (arith, one, (if_some (ltb 1 r.eligible_asset_count) _ h).0));
        settled = λ h. (h, refl);
        fewer = ground arith;
      },
      omega (arith, less),
    )

pub attempts-Safe : All Safe attempts
attempts-Safe = (
  remove_candidate-Safe,
  (
    remove_asset-Safe,
    (
      remove_relationship-Safe,
      (
        remove_alarm-Safe,
        (
          remove_tag-Safe,
          (remove_role-Safe, (remove_aliases-Safe, (remove_term-Safe, (remove_eligible-Safe, tt)))),
        ),
      ),
    ),
  ),
)

first_change-Safe : (steps : List Attempt) → All Safe steps → Safe (first_change steps)
unfolding first_change
first_change-Safe [] safe r r' h = absurd (ground arith)
first_change-Safe (step ∷ steps) safe r r' h = elim (Option-cases (step r)) [
  | inl nothing ↦ first_change-Safe steps safe.1 r r' (ground (arith, nothing))
  | inr (changed, e) ↦ safe.0 r r' (ground (arith, e))
]

pub shrink-Safe : Safe shrink
unfolding shrink weight
shrink-Safe r r' h = elim (Option-cases (first_change attempts r)) [
  | inl nothing ↦ absurd (ground (arith, nothing))
  | inr (changed, e) ↦
      let (k, lighter) = first_change-Safe attempts attempts-Safe r changed e in
      let same : record changed { truncated = record changed.truncated { budget = true } } ≡ r' =
        ground (arith, e) in
      subst (Round r) same (
        record {
          limits = k.limits;
          count = k.count;
          specific = k.specific;
          chosen_same = k.chosen_same;
          eligible = k.eligible;
          settled = k.settled;
          fewer = k.fewer;
        },
        lighter,
      )
]
