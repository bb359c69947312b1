-- ===== src/Retrieval/Lists.antt =====
-- What the removals of context_retrieval.cpp leave of a list.
use ctm.Prelude.{
  suc, ◌≤◌, ◌≡◌, refl, ap, subst, Bool, true, not, List, [], ◌∷◌, none, some, Option-cases, inl,
  inr, arith, length, All,
}
use ctm.Model.{Asset, asset_ids}
use ctm.Retrieval.Terms.{filter}
use ctm.Retrieval.Budget.{remove_last, erase_last, drop_aliases}
use ctm.Retrieval.Call.{with_aliases}

-- A list with one element left out.
pub data OneOut {ℓ} {A : Type ℓ} : List A → List A → Type ℓ where
  here : (x : A) (xs : List A) → OneOut xs (x ∷ xs)
  there : (x : A) {ys xs : List A} → OneOut ys xs → OneOut (x ∷ ys) (x ∷ xs)

module _ {ℓ} {A : Type ℓ} where
  pub length-OneOut : {ys xs : List A} → OneOut ys xs → length xs ≡ suc (length ys)
  length-OneOut (OneOut.here x xs) = refl
  length-OneOut (OneOut.there x o) = ap suc (length-OneOut o)

  pub All-OneOut {κ} : (P : A → Type κ) {ys xs : List A} → OneOut ys xs → All P xs → All P ys
  All-OneOut P (OneOut.here x xs) a = a.1
  All-OneOut P (OneOut.there x o) a = (a.0, All-OneOut P o a.1)

  pub remove_last-OneOut :
      (p : A → Bool) (xs : List A) {ys : List A} → remove_last p xs ≡ some ys → OneOut ys xs
  unfolding remove_last
  remove_last-OneOut p [] h = absurd (ground arith)
  remove_last-OneOut p (x ∷ xs) {ys} h = elim (Option-cases (remove_last p xs)) [
    | inl nothing ↦
        let same : xs ≡ ys = ground (arith, nothing) in
        subst (λ l. OneOut l (x ∷ xs)) same (OneOut.here x xs)
    | inr (rest, e) ↦
        let same : x ∷ rest ≡ ys = ground (arith, e) in
        subst (λ l. OneOut l (x ∷ xs)) same (OneOut.there x (remove_last-OneOut p xs e))
  ]

  pub erase_last-OneOut : (xs : List A) {ys : List A} → erase_last xs ≡ some ys → OneOut ys xs
  unfolding erase_last
  erase_last-OneOut xs h = remove_last-OneOut (λ _. true) xs h

  -- The elements that fail the test stay.
  pub filter-remove_last :
      (p q : A → Bool)
      → ((x : A) → p x ≡ not (q x))
      → (xs : List A) {ys : List A} → remove_last p xs ≡ some ys
      → filter q ys ≡ filter q xs
  unfolding remove_last filter
  filter-remove_last p q opposite [] h = absurd (ground arith)
  filter-remove_last p q opposite (x ∷ xs) {ys} h = elim (Option-cases (remove_last p xs)) [
    | inl nothing ↦ ground (arith, nothing, opposite x)
    | inr (rest, e) ↦
        let same : x ∷ rest ≡ ys = ground (arith, e) in
        let kept = filter-remove_last p q opposite xs e in
        subst (λ l. filter q l ≡ filter q (x ∷ xs)) same (ground (arith, kept))
  ]

pub with_aliases-OneOut : {ys xs : List Asset} → OneOut ys xs → with_aliases ys ≤ with_aliases xs
unfolding with_aliases
with_aliases-OneOut (OneOut.here x xs) = ground arith
with_aliases-OneOut (OneOut.there x o) = ground (arith, with_aliases-OneOut o)

pub drop_aliases-lem :
    (xs : List Asset) {ys : List Asset}
    → drop_aliases xs ≡ some ys
    → (asset_ids ys ≡ asset_ids xs) × (with_aliases xs ≡ suc (with_aliases ys))
unfolding drop_aliases with_aliases
drop_aliases-lem [] h = absurd (ground arith)
drop_aliases-lem (x ∷ xs) {ys} h = elim (Option-cases x.aliases) [
  | inr (names, e) ↦
      let same : record x { aliases = none } ∷ xs ≡ ys = ground (arith, e) in
      subst
        (λ l. (asset_ids l ≡ asset_ids (x ∷ xs)) × (with_aliases (x ∷ xs) ≡ suc (with_aliases l)))
        same (refl, ground (arith, e))
  | inl bare ↦ elim (Option-cases (drop_aliases xs)) [
    | inl nothing ↦ absurd (ground (arith, bare, nothing))
    | inr (rest, e) ↦
        let same : x ∷ rest ≡ ys = ground (arith, bare, e) in
        let (ids, count) = drop_aliases-lem xs e in
        subst
          (λ l. (asset_ids l ≡ asset_ids (x ∷ xs)) × (with_aliases (x ∷ xs) ≡ suc (with_aliases l)))
          same (ap (◌∷◌ x.id) ids, ground (arith, bare, count))
  ]
]
