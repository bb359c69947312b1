-- ===== src/Retrieval/Choice.antt =====
-- The eligible candidates of a result of `retrieve` in context_retrieval.cpp.
use ctm.Prelude.{
  ℕ, zero, suc, ◌<◌, ◌≡◌, sym, subst, Bool, false, Bool-cases, inl, inr, ◌⊎◌, List, [], ◌∷◌, Bytes,
  arith, All, map, take, ok,
}
use ctm.Json.{JsonLibrary}
use ctm.Model.{Model, index_model}
use ctm.Retrieval.{Limits, Scored, Candidate, Retrieved}
use ctm.Retrieval.Terms.{filter, terms_for}
use ctm.Retrieval.Score.{scored, eligibility_score}
use ctm.Retrieval.Scope.{is_eligible, candidates}
use ctm.Retrieval.Call.{first_result, retrieve}
use ctm.Retrieval.Rounds.{chosen}
use ctm.Retrieval.Loop.{retrieve-Kept}
use ctm.Retrieval.Order.{All-weaken, Best, eligibility_score-Best}

All-filter {ℓ κ} :
    {A : Type ℓ} (P : A → Type κ) (q : A → Bool) (xs : List A)
    → All (λ x. (q x ≡ false) ⊎ P x) xs
    → All P (filter q xs)
unfolding filter
All-filter P q [] a = tt
All-filter P q (x ∷ xs) a = elim (Bool-cases (q x)) [
  | inl kept ↦
      let same : x ∷ filter q xs ≡ filter q (x ∷ xs) = ground (arith, kept) in
      elim a.0 [
        | inl out ↦ absurd (ground (arith, kept, out))
        | inr p ↦ subst (All P) same (p, All-filter P q xs a.1)
      ]
  | inr out ↦
      let same : filter q xs ≡ filter q (x ∷ xs) = ground (arith, out) in
      subst (All P) same (All-filter P q xs a.1)
]

All-map-take {ℓ κ μ} :
    {A : Type ℓ} {B : Type κ} (P : B → Type μ) (f : A → B)
    → ((x : A) → P (f x))
    → (n : ℕ) (xs : List A) → All P (map f (take n xs))
All-map-take P f p zero xs = tt
All-map-take P f p (suc n) [] = tt
All-map-take P f p (suc n) (x ∷ xs) = (p x, All-map-take P f p n xs)

is_eligible-score :
    (best : ℕ) (item : Scored)
    → (is_eligible best item ≡ false) ⊎ ((item.score ≡ best) × (0 < best))
unfolding is_eligible
is_eligible-score best item = ground arith

-- An eligible candidate has the score of eligibility, which is not 0.
chosen-score :
    (limit best : ℕ) (items : List Scored)
    → All (λ (c : Candidate). (c.score ≡ best) × (0 < best)) (chosen (candidates limit best items))
unfolding candidates
chosen-score limit best items =
    All-filter (λ (c : Candidate). (c.score ≡ best) × (0 < best)) (λ (c : Candidate). c.eligible)
      (candidates limit best items)
      (All-map-take (λ (c : Candidate). (c.eligible ≡ false) ⊎ ((c.score ≡ best) × (0 < best))) _
        (is_eligible-score best) limit items)

-- The eligible candidates of the first result are the best ones.
first_result-Best :
    {D : Type 0} (model : Model D) (prompt : Bytes) (limits : Limits)
    → All
        (λ (c : Candidate). Best model.assets (terms_for prompt) c.score)
        (chosen (first_result model prompt limits).candidates)
unfolding first_result
first_result-Best model prompt limits =
    let terms = terms_for prompt in
    let items = scored model.assets terms in
    let best = eligibility_score items in
    All-weaken
      (λ (c : Candidate) (p : (c.score ≡ best) × (0 < best)).
        elim (eligibility_score-Best model.assets terms) [
          | inl nothing ↦ absurd (omega (arith, nothing, p.1))
          | inr b ↦ subst (Best model.assets terms) (sym p.0) b
        ])
      (chosen (candidates limits.candidates best items)) (chosen-score limits.candidates best items)

module _ (J : JsonLibrary) (size : Retrieved → ℕ) where
  open J use {Json, Double}

  -- Every eligible candidate of a result for an accepted document has a score of at least 12 that no asset of the model exceeds
  -- for the terms of the prompt.
  pub retrieve-Best :
      (document : Json) (prompt : Bytes) (limits : Limits) (model : Model Double) (r : Retrieved)
      → index_model J document ≡ ok model
      → retrieve J size document prompt limits ≡ ok r
      → All (λ (c : Candidate). Best model.assets (terms_for prompt) c.score) (chosen r.candidates)
  retrieve-Best document prompt limits model r accepted h =
      let (kept, _, _) = retrieve-Kept J size document prompt limits model r accepted h in
      subst (All (λ (c : Candidate). Best model.assets (terms_for prompt) c.score))
        (sym kept.chosen_same) (first_result-Best model prompt limits)
