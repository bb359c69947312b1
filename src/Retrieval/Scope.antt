-- ===== src/Retrieval/Scope.antt =====
-- The part of the model that `retrieve` of context_retrieval.cpp selects: the candidates, the scope, and
-- what the scope shows.
use ctm.Prelude.{
  ℕ, zero, suc, Bool, true, false, not, ◌&&◌, ◌||◌, List, [], ◌∷◌, ◌++◌, Bytes, bytes_eq, Option,
  none, some, leb, ltb, ◌==◌, if◌then◌else◌, length, map, take,
}
use ctm.Model.{Model, Asset, Relationship, Tag, Alarm, known, tag_ids}
use ctm.Retrieval.{Scored, Candidate, ScopeTag, ScopeAlarm}
use ctm.Retrieval.Terms.{filter}

unfoldable pub is_eligible : ℕ → Scored → Bool
is_eligible best item = ltb 0 best && item.score == best

-- The loop over the candidates stops at the limit.
unfoldable pub candidates : ℕ → ℕ → List Scored → List Candidate
candidates limit best items =
    map
      (λ (item : Scored). record {
        asset_id = item.asset.id;
        name = item.asset.name;
        kind = item.asset.kind;
        score = item.score;
        eligible = is_eligible best item;
        reasons = item.reasons;
      })
      (take limit items)

unfoldable pub eligible_ids : List Candidate → List Bytes
eligible_ids listed =
    map (λ (c : Candidate). c.asset_id) (filter (λ (c : Candidate). c.eligible) listed)

-- `all_eligible_ids`: those beyond the limit come after.
unfoldable pub all_eligible_ids : ℕ → List Scored → List Bytes → List Bytes
all_eligible_ids best [] ids = ids
all_eligible_ids best (item ∷ items) ids =
    all_eligible_ids best items (
      if item.score == best && not (known item.asset.id ids)
      then ids ++ item.asset.id ∷ []
      else ids)

-- `insert` of a set, whose order does not matter.
unfoldable pub add_id : Bytes → List Bytes → List Bytes
add_id id ids = if known id ids then ids else id ∷ ids

unfoldable pub add_all : List Bytes → List Bytes → List Bytes
add_all [] ids = ids
add_all (id ∷ rest) ids = add_all rest (add_id id ids)

-- The ids in scope, and whether any were left out.
abbrev pub Reach : Type 0
Reach = List Bytes × Bool

-- A request that names no asset is about all of them.
unfoldable pub first_assets : ℕ → List Asset → Reach → Reach
first_assets limit [] reach = reach
first_assets limit (asset ∷ assets) (ids, cut) =
    let more = first_assets limit assets (add_id asset.id ids, cut) in
    if leb limit (length ids) then (ids, true) else more

-- A round of the loop that adds the neighbours of the one asset in scope.
unfoldable pub add_neighbour : ℕ → Relationship → Reach → Reach
add_neighbour limit rel (ids, cut) =
    if known rel.from ids && ltb (length ids) limit
    then (add_id rel.to ids, cut)
    else if known rel.to ids && ltb (length ids) limit
    then (add_id rel.from ids, cut)
    else if known rel.from ids && not (known rel.to ids)
        || known rel.to ids && not (known rel.from ids)
    then (ids, true)
    else (ids, cut)

unfoldable pub add_neighbours : ℕ → List Relationship → Reach → Reach
add_neighbours limit [] reach = reach
add_neighbours limit (rel ∷ relationships) reach =
    add_neighbours limit relationships (add_neighbour limit rel reach)

unfoldable pub reach : {D : Type 0} → Model D → ℕ → Bool → List Bytes → Reach
reach model limit specific eligible =
    let ids = add_all eligible [] in
    let (start, cut) =
      if (length ids == 0) && not specific
      then first_assets limit model.assets (ids, false)
      else (ids, false) in
    if length start == 1
    then add_neighbours limit model.relationships (start, cut)
    else (start, cut)

-- The ids in the order of the result: the eligible ones, then the others in the order of the model.
unfoldable pub ordered_ids : List Asset → List Bytes → List Bytes → List Bytes
ordered_ids [] scope ids = ids
ordered_ids (asset ∷ assets) scope ids =
    ordered_ids assets scope
      (if known asset.id scope && not (known asset.id ids) then ids ++ asset.id ∷ [] else ids)

unfoldable pub find_asset : Bytes → List Asset → Option Asset
find_asset id [] = none
find_asset id (asset ∷ assets) = if bytes_eq asset.id id then some asset else find_asset id assets

-- The loop over the ids, with room for `room` more assets.
unfoldable pub scope_assets : ℕ → List Bytes → List Asset → List Asset
scope_assets room [] assets = []
scope_assets zero (id ∷ ids) assets = []
scope_assets (suc room) (id ∷ ids) assets =
    let with = scope_assets room ids assets in
    let without = scope_assets (suc room) ids assets in
    elim (find_asset id assets) [ none ↦ without | some asset ↦ asset ∷ with ]

unfoldable pub relevant_relationships : List Relationship → List Bytes → List Relationship
relevant_relationships relationships scope =
    filter (λ (rel : Relationship). known rel.from scope && known rel.to scope) relationships

-- The assets whose tags and alarms are shown.
unfoldable pub measurement_scope : List Bytes → List Bytes → List Bytes
measurement_scope eligible scope = if length eligible == 0 then scope else add_all eligible []

unfoldable pub role_source_tags : List Tag → List Bytes → List Tag
role_source_tags tags scope = filter (λ (tag : Tag). known tag.asset_id scope) tags

-- The first tag of the role that is not in the list yet.
unfoldable pub add_role_tag : Bytes → List Tag → List Tag → List Tag
add_role_tag role [] ordered = ordered
add_role_tag role (tag ∷ tags) ordered =
    let rest = add_role_tag role tags ordered in
    if bytes_eq tag.role role && not (known tag.id (tag_ids ordered))
    then ordered ++ tag ∷ []
    else rest

unfoldable pub add_role_tags : List Bytes → List Tag → List Tag → List Tag
add_role_tags [] tags ordered = ordered
add_role_tags (role ∷ roles) tags ordered =
    add_role_tags roles tags (add_role_tag role tags ordered)

unfoldable pub add_other_tags : List Tag → List Tag → List Tag
add_other_tags [] ordered = ordered
add_other_tags (tag ∷ tags) ordered =
    add_other_tags tags (if known tag.id (tag_ids ordered) then ordered else ordered ++ tag ∷ [])

-- `ordered_tags`: one for each requested role first.
unfoldable pub ordered_tags : List Bytes → List Tag → List Tag
ordered_tags roles tags = add_other_tags tags (add_role_tags roles tags [])

unfoldable pub scope_tags : ℕ → List Tag → List ScopeTag
scope_tags limit tags =
    map
      (λ (tag : Tag). record {
        id = tag.id;
        asset_id = tag.asset_id;
        name = tag.name;
        role = tag.role;
        data_type = tag.data_type;
        unit = tag.unit;
      })
      (take limit tags)

unfoldable pub relevant_alarms : {D : Type 0} → List (Alarm D) → List Bytes → List (Alarm D)
relevant_alarms alarms scope = filter (λ alarm. known alarm.asset_id scope) alarms

unfoldable pub scope_alarms : {D : Type 0} → ℕ → List (Alarm D) → List ScopeAlarm
scope_alarms limit alarms =
    map
      (λ alarm. record {
        id = alarm.id;
        asset_id = alarm.asset_id;
        name = alarm.name;
        tag_id = alarm.tag_id;
        severity = alarm.severity;
      })
      (take limit alarms)
