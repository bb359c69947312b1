-- ===== src/Retrieval/Anchor.antt =====
-- What the flag of a specific reference and the eligible ids of `first_result` say of the assets
-- that a prompt refers to, in context_retrieval.cpp.
use ctm.Prelude.{
  ℕ, zero, suc, ◌≤◌, ◌<◌, ◌≡◌, ◌≢◌, refl, ap, sym, ◌∙◌, subst, true, false, not, ◌&&◌, ◌||◌, List,
  [], ◌∷◌, ◌++◌, Bytes, bytes_eq_iff, Bool-cases, inl, inr, ◌⊎◌, arith, length, length-append, map,
  All, any_of, leb, ltb, ◌==◌,
}
use ctm.Model.{Asset, known}
use ctm.Retrieval.{Scored}
use ctm.Retrieval.Terms.{contains, concat_terms, terms_for, numeric_terms, filter}
use ctm.Retrieval.Score.{kind_mentioned, score_asset, scored, specific_reference, eligibility_score}
use ctm.Retrieval.Scope.{is_eligible, candidates, eligible_ids, all_eligible_ids}
use ctm.Retrieval.Entries.{Any, scored-All, scored-Any, All-zip, Any-weaken, Any-exists}
use ctm.Retrieval.Order.{All-weaken, eligibility_score-Best}

abbrev pub score_for : List Bytes → Asset → ℕ
score_for terms asset = (score_asset terms (numeric_terms terms) asset).score

-- The terms have no number, no word of the kind of an asset, and no asset scores 80.
abbrev pub RefersToNone : List Asset → List Bytes → Type 0
RefersToNone assets terms =
    (numeric_terms terms ≡ [])
    × All (λ (a : Asset). any_of (contains (terms_for a.kind)) terms ≡ false) assets
    × All (λ (a : Asset). score_for terms a < 80) assets

-- The asset `id` has a score of at least 12, and every asset with another id scores less.
abbrev pub RefersTo : List Asset → List Bytes → Bytes → Type 0
RefersTo assets terms id =
    (best : ℕ) × (12 ≤ best)
    × Any (λ (a : Asset). (a.id ≡ id) × (score_for terms a ≡ best)) assets
    × All (λ (a : Asset). (score_for terms a < best) ⊎ (a.id ≡ id)) assets

known-append :
    (word : Bytes) (xs ys : List Bytes) → known word (xs ++ ys) ≡ known word xs || known word ys
unfolding known
known-append word [] ys = refl
known-append word (x ∷ xs) ys = ground (arith, known-append word xs ys)

any_of-contains-append :
    (xs ys terms : List Bytes)
    → any_of (contains (xs ++ ys)) terms ≡ false
    → (any_of (contains xs) terms ≡ false) × (any_of (contains ys) terms ≡ false)
unfolding any_of
any_of-contains-append xs ys [] h = (refl, refl)
any_of-contains-append xs ys (t ∷ terms) h =
    ground (arith, h, known-append t xs ys, any_of-contains-append xs ys terms)

kinds-All :
    (assets : List Asset) (terms : List Bytes)
    → any_of (contains (concat_terms (map (λ (a : Asset). a.kind) assets))) terms ≡ false
    → All (λ (a : Asset). any_of (contains (terms_for a.kind)) terms ≡ false) assets
unfolding concat_terms
kinds-All [] terms h = tt
kinds-All (a ∷ assets) terms h =
    let (here, rest) =
      any_of-contains-append (terms_for a.kind) (concat_terms (map (λ (b : Asset). b.kind) assets))
        terms h in
    (here, kinds-All assets terms rest)

low-All :
    (items : List Scored)
    → any_of (λ (item : Scored). leb 80 item.score) items ≡ false
    → All (λ (item : Scored). item.score < 80) items
unfolding any_of
low-All [] h = tt
low-All (item ∷ items) h = (ground (arith, h), low-All items (ground (arith, h)))

pub specific_reference-RefersToNone :
    (assets : List Asset) (prompt : Bytes) (terms : List Bytes)
    → specific_reference assets prompt terms (scored assets terms) ≡ false
    → RefersToNone assets terms
unfolding specific_reference kind_mentioned
specific_reference-RefersToNone assets prompt terms h = (
  no_numbers (numeric_terms terms) (ground (arith, h)),
  kinds-All assets terms (ground (arith, h)),
  All-weaken (λ a either. ground (arith, either)) assets
      (scored-All (λ (item : Scored). item.score < 80) assets terms
        (low-All (scored assets terms) (ground (arith, h)))),
)
  where
    no_numbers : (ts : List Bytes) → (length ts == 0) ≡ true → ts ≡ []
    no_numbers [] e = refl
    no_numbers (t ∷ ts) e = absurd (ground arith)

eligible-Any :
    (n best : ℕ) (items : List Scored) (id : Bytes)
    → eligible_ids (candidates n best items) ≡ id ∷ []
    → Any (λ (item : Scored). (item.asset.id ≡ id) × (item.score ≡ best) × (0 < best)) items
unfolding eligible_ids candidates is_eligible filter
eligible-Any zero best items id h = absurd (ground arith)
eligible-Any (suc n) best [] id h = absurd (ground arith)
eligible-Any (suc n) best (item ∷ items) id h =
    elim (Bool-cases (ltb 0 best && item.score == best)) [
      | inl eligible ↦ inl (ground (arith, eligible, h))
      | inr other ↦ inr (eligible-Any n best items id (ground (arith, other, h)))
    ]

pub length-all_eligible_ids :
    (best : ℕ) (items : List Scored) (ids : List Bytes)
    → length ids ≤ length (all_eligible_ids best items ids)
unfolding all_eligible_ids
length-all_eligible_ids best [] ids = ground arith
length-all_eligible_ids best (item ∷ items) ids = ground (
  arith,
  length-append ids (item.asset.id ∷ []),
  length-all_eligible_ids best items ids,
  length-all_eligible_ids best items (ids ++ item.asset.id ∷ []),
)

-- With one eligible id among all, no item with another id has the best score.
all_eligible_ids-All :
    (best : ℕ) (items : List Scored) (id : Bytes)
    → length (all_eligible_ids best items (id ∷ [])) ≤ 1
    → All (λ (item : Scored). (item.score ≢ best) ⊎ (item.asset.id ≡ id)) items
unfolding all_eligible_ids known
all_eligible_ids-All best [] id few = tt
all_eligible_ids-All best (item ∷ items) id few =
    elim (Bool-cases (item.score == best && not (known item.asset.id (id ∷ [])))) [
      | inl added ↦
          absurd (
            ground
              (arith, added, few, length-all_eligible_ids best items (id ∷ item.asset.id ∷ [])))
      | inr kept ↦ (listed kept, all_eligible_ids-All best items id (ground (arith, kept, few)))
    ]
  where
    listed :
        (item.score == best && not (known item.asset.id (id ∷ []))) ≡ false
        → (item.score ≢ best) ⊎ (item.asset.id ≡ id)
    listed kept = ground (arith, kept, bytes_eq_iff item.asset.id id)

asset-score_asset :
    (terms numbers : List Bytes) (a : Asset) → (score_asset terms numbers a).asset ≡ a
unfolding score_asset
asset-score_asset terms numbers a = refl

-- An asset's own id and score, of its entry among the scores.
best_entry :
    (terms : List Bytes) (id : Bytes) (best : ℕ) (a : Asset)
    → let item = score_asset terms (numeric_terms terms) a in
      (item.asset.id ≡ id) × (item.score ≡ best) × (0 < best)
      → (a.id ≡ id) × (score_for terms a ≡ best)
best_entry terms id best a (same, score, _) =
    (ap (λ (b : Asset). b.id) (sym (asset-score_asset terms (numeric_terms terms) a)) ∙ same, score)

lower_entry :
    (terms : List Bytes) (id : Bytes) (best : ℕ) (a : Asset)
    → let item = score_asset terms (numeric_terms terms) a in
      12 ≤ best
      → (item.score ≤ best)
        × ((ltb 0 item.score ≡ false) ⊎ ((item.score ≢ best) ⊎ (item.asset.id ≡ id)))
      → (score_for terms a < best) ⊎ (a.id ≡ id)
lower_entry terms id best a high (below, inl nothing) = inl (ground (arith, high, nothing))
lower_entry terms id best a high (below, inr (inl less)) = inl (omega (arith, below, less))
lower_entry terms id best a high (below, inr (inr same)) =
    inr (ap (λ (b : Asset). b.id) (sym (asset-score_asset terms (numeric_terms terms) a)) ∙ same)

pub eligible-RefersTo :
    (assets : List Asset) (terms : List Bytes) (n : ℕ) (id : Bytes)
    → let items = scored assets terms in
      let best = eligibility_score items in
      let eligible = eligible_ids (candidates n best items) in
      eligible ≡ id ∷ []
      → length (all_eligible_ids best items eligible) ≤ 1
      → RefersTo assets terms id
eligible-RefersTo assets terms n id h few =
    let items = scored assets terms in
    let best = eligibility_score items in
    let there = eligible-Any n best items id h in
    let (_, (_, _, positive)) = Any-exists _ items there in
    let alone =
      all_eligible_ids-All best items id
        (subst (λ ids. length (all_eligible_ids best items ids) ≤ 1) h few) in
    elim (eligibility_score-Best assets terms) [
      | inl nothing ↦ absurd (omega (arith, nothing, positive))
      | inr (high, all) ↦ (
        best,
        high,
        Any-weaken _ _ (best_entry terms id best) assets (scored-Any _ assets terms there),
        All-weaken (λ a. lower_entry terms id best a high) assets
            (All-zip _ _ assets all (scored-All _ assets terms alone)),
      )
    ]
