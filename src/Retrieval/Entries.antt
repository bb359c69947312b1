-- ===== src/Retrieval/Entries.antt =====
-- What holds of some or of all of the scores in context_retrieval.cpp, and of the assets.
use ctm.Prelude.{
  ◌≡◌, subst, Bool, false, List, [], ◌∷◌, Bytes, Bool-cases, inl, inr, ◌⊎◌, arith, map, All, ltb,
}
use ctm.Model.{Asset}
use ctm.Retrieval.{Scored}
use ctm.Retrieval.Terms.{numeric_terms, insert, sort, filter}
use ctm.Retrieval.Score.{before, score_asset, scored}
use ctm.Retrieval.Order.{insert_later, insert_here, sort-All, filter-All, map-All}

-- A predicate that holds of some element.
abbrev pub Any {ℓ} : {A : Type ℓ} → (A → Type 0) → List A → Type 0
Any P [] = ⊥
Any P (x ∷ xs) = P x ⊎ Any P xs

-- What holds of every candidate holds of every asset with a score.
pub scored-All {κ} :
    (P : Scored → Type κ) (assets : List Asset) (terms : List Bytes)
    → All P (scored assets terms)
    → All
        (λ (a : Asset).
          let item = score_asset terms (numeric_terms terms) a in
          (ltb 0 item.score ≡ false) ⊎ P item)
        assets
unfolding scored
scored-All P assets terms all =
    let score = score_asset terms (numeric_terms terms) in
    let positive : Scored → Bool = λ (item : Scored). ltb 0 item.score in
    map-All score (λ (item : Scored). (ltb 0 item.score ≡ false) ⊎ P item) assets
      (filter-All P positive (map score assets)
        (sort-All P before (filter positive (map score assets)) all))

module _ {ℓ} {A : Type ℓ} (P : A → Type 0) where
  insert-Any :
      (less : A → A → Bool) (x : A) (ys : List A) → Any P (insert less x ys) → P x ⊎ Any P ys
  unfolding insert
  insert-Any less x [] a = a
  insert-Any less x (y ∷ ys) a = elim (Bool-cases (less y x)) [
    | inl first ↦ elim (subst (Any P) (insert_later less x y ys first) a) [
      | inl p ↦ inr (inl p)
      | inr later ↦ elim (insert-Any less x ys later) [ inl p ↦ inl p | inr q ↦ inr (inr q) ]
    ]
    | inr later ↦ subst (Any P) (insert_here less x y ys later) a
  ]

  sort-Any : (less : A → A → Bool) (xs : List A) → Any P (sort less xs) → Any P xs
  unfolding sort
  sort-Any less [] a = a
  sort-Any less (x ∷ xs) a = elim (insert-Any less x (sort less xs) a) [
    | inl p ↦ inl p
    | inr rest ↦ inr (sort-Any less xs rest)
  ]

  filter-Any : (q : A → Bool) (xs : List A) → Any P (filter q xs) → Any P xs
  unfolding filter
  filter-Any q [] a = a
  filter-Any q (x ∷ xs) a = elim (Bool-cases (q x)) [
    | inl kept ↦
        let same : filter q (x ∷ xs) ≡ x ∷ filter q xs = ground (arith, kept) in
        elim (subst (Any P) same a) [ inl p ↦ inl p | inr rest ↦ inr (filter-Any q xs rest) ]
    | inr out ↦
        let same : filter q (x ∷ xs) ≡ filter q xs = ground (arith, out) in
        inr (filter-Any q xs (subst (Any P) same a))
  ]

map-Any {ℓ κ} :
    {A : Type ℓ} {B : Type κ} (f : A → B) (P : B → Type 0) (xs : List A)
    → Any P (map f xs)
    → Any (λ x. P (f x)) xs
map-Any f P [] a = a
map-Any f P (x ∷ xs) (inl p) = inl p
map-Any f P (x ∷ xs) (inr rest) = inr (map-Any f P xs rest)

pub scored-Any :
    (P : Scored → Type 0) (assets : List Asset) (terms : List Bytes)
    → Any P (scored assets terms)
    → Any (λ (a : Asset). P (score_asset terms (numeric_terms terms) a)) assets
unfolding scored
scored-Any P assets terms any =
    let score = score_asset terms (numeric_terms terms) in
    map-Any score P assets (
      filter-Any P (λ (item : Scored). ltb 0 item.score) (map score assets)
        (sort-Any P before _ any))

pub All-zip {ℓ κ μ} :
    {A : Type ℓ} (P : A → Type κ) (Q : A → Type μ) (xs : List A)
    → All P xs
    → All Q xs
    → All (λ x. P x × Q x) xs
All-zip P Q [] a b = tt
All-zip P Q (x ∷ xs) a b = ((a.0, b.0), All-zip P Q xs a.1 b.1)

pub Any-weaken {ℓ} :
    {A : Type ℓ} (P Q : A → Type 0) → ((x : A) → P x → Q x) → (xs : List A) → Any P xs → Any Q xs
Any-weaken P Q f [] a = a
Any-weaken P Q f (x ∷ xs) (inl p) = inl (f x p)
Any-weaken P Q f (x ∷ xs) (inr rest) = inr (Any-weaken P Q f xs rest)

pub Any-exists {ℓ} : {A : Type ℓ} (P : A → Type 0) (xs : List A) → Any P xs → (x : A) × P x
Any-exists P [] a = absurd a
Any-exists P (x ∷ xs) (inl p) = (x, p)
Any-exists P (x ∷ xs) (inr rest) = Any-exists P xs rest
