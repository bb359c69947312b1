-- ===== src/Retrieval/Order.antt =====
-- The sort of the candidates in context_retrieval.cpp puts a best one first.
use ctm.Prelude.{
  ℕ, ◌≤◌, ◌≡◌, refl, sym, Bool, true, false, Bool-cases, inl, inr, ◌⊎◌, subst, List, [], ◌∷◌, arith,
  All, map, ltb,
}
use ctm.Model.{Asset}
use ctm.Retrieval.{Scored}
use ctm.Retrieval.Terms.{insert, sort, filter, numeric_terms}
use ctm.Retrieval.Score.{before, score_asset, scored, eligibility_score}
use ctm.Prelude.{Bytes}

pub insert_later {ℓ} :
    {A : Type ℓ} (less : A → A → Bool) (x y : A) (ys : List A)
    → less y x ≡ true
    → insert less x (y ∷ ys) ≡ y ∷ insert less x ys
unfolding insert
insert_later less x y ys h = ground (arith, h)

pub insert_here {ℓ} :
    {A : Type ℓ} (less : A → A → Bool) (x y : A) (ys : List A)
    → less y x ≡ false
    → insert less x (y ∷ ys) ≡ x ∷ y ∷ ys
unfolding insert
insert_here less x y ys h = ground (arith, h)

module _ {ℓ κ} {A : Type ℓ} (P : A → Type κ) where
  pub All-insert :
      (less : A → A → Bool) (x : A) (ys : List A) → P x → All P ys → All P (insert less x ys)
  unfolding insert
  All-insert less x [] p a = (p, tt)
  All-insert less x (y ∷ ys) p a = elim (Bool-cases (less y x)) [
    | inl first ↦ rw first (a.0, All-insert less x ys p a.1)
    | inr later ↦ rw later (p, a)
  ]

  pub insert-All :
      (less : A → A → Bool) (x : A) (ys : List A) → All P (insert less x ys) → P x × All P ys
  unfolding insert
  insert-All less x [] a = (a.0, tt)
  insert-All less x (y ∷ ys) a = elim (Bool-cases (less y x)) [
    | inl first ↦
        let b = subst (All P) (insert_later less x y ys first) a in
        let rest = insert-All less x ys b.1 in (rest.0, (b.0, rest.1))
    | inr later ↦ let b = subst (All P) (insert_here less x y ys later) a in (b.0, b.1)
  ]

  pub All-sort : (less : A → A → Bool) (xs : List A) → All P xs → All P (sort less xs)
  unfolding sort
  All-sort less [] a = tt
  All-sort less (x ∷ xs) a = All-insert less x (sort less xs) a.0 (All-sort less xs a.1)

  pub sort-All : (less : A → A → Bool) (xs : List A) → All P (sort less xs) → All P xs
  unfolding sort
  sort-All less [] a = tt
  sort-All less (x ∷ xs) a =
      let (p, rest) = insert-All less x (sort less xs) a in (p, sort-All less xs rest)

  pub filter-All :
      (q : A → Bool) (xs : List A) → All P (filter q xs) → All (λ x. (q x ≡ false) ⊎ P x) xs
  unfolding filter
  filter-All q [] a = tt
  filter-All q (x ∷ xs) a = elim (Bool-cases (q x)) [
    | inl kept ↦
        let same : filter q (x ∷ xs) ≡ x ∷ filter q xs = ground (arith, kept) in
        let b = subst (All P) same a in (inr b.0, filter-All q xs b.1)
    | inr out ↦
        let same : filter q (x ∷ xs) ≡ filter q xs = ground (arith, out) in
        let b = subst (All P) same a in (inl out, filter-All q xs b)
  ]

pub All-weaken {ℓ κ μ} :
    {A : Type ℓ} {P : A → Type κ} {Q : A → Type μ}
    → ((x : A) → P x → Q x)
    → (xs : List A) → All P xs
    → All Q xs
All-weaken f [] a = tt
All-weaken f (x ∷ xs) a = (f x a.0, All-weaken f xs a.1)

pub map-All {ℓ κ μ} :
    {A : Type ℓ} {B : Type κ} (f : A → B) (P : B → Type μ) (xs : List A)
    → All P (map f xs)
    → All (λ x. P (f x)) xs
map-All f P [] a = tt
map-All f P (x ∷ xs) a = (a.0, map-All f P xs a.1)

-- No score is above that of an item before it.
abbrev pub Descending : List Scored → Type 0
Descending [] = Unit
Descending (x ∷ xs) = All (λ (y : Scored). y.score ≤ x.score) xs × Descending xs

before-score : (y x : Scored) → before y x ≡ true → x.score ≤ y.score
unfolding before
before-score y x h = ground (arith, h)

before_not-score : (y x : Scored) → before y x ≡ false → y.score ≤ x.score
unfolding before
before_not-score y x h = ground (arith, h)

insert-Descending :
    (x : Scored) (ys : List Scored) → Descending ys → Descending (insert before x ys)
unfolding insert
insert-Descending x [] d = (tt, tt)
insert-Descending x (y ∷ ys) d = elim (Bool-cases (before y x)) [
  | inl first ↦ rw (insert_later before x y ys first) (
    All-insert (λ (z : Scored). z.score ≤ y.score) before x ys (before-score y x first) d.0,
    insert-Descending x ys d.1,
  )
  | inr later ↦
      let h = before_not-score y x later in
      rw (insert_here before x y ys later)
        ((h, All-weaken (λ z below. omega (arith, h, below)) ys d.0), d)
]

sort-Descending : (xs : List Scored) → Descending (sort before xs)
unfolding sort
sort-Descending [] = tt
sort-Descending (x ∷ xs) = insert-Descending x (sort before xs) (sort-Descending xs)

-- Unless it is 0, the score of eligibility is at least 12 and no item is above it.
best-All :
    (items : List Scored)
    → Descending items
    → (eligibility_score items ≡ 0)
      ⊎ ((12 ≤ eligibility_score items)
          × All (λ (y : Scored). y.score ≤ eligibility_score items) items)
unfolding eligibility_score
best-All [] d = inl refl
best-All (x ∷ xs) d = elim (Bool-cases (ltb x.score 12)) [
  | inl low ↦ inl (ground (arith, low))
  | inr high ↦
      let same : eligibility_score (x ∷ xs) ≡ x.score = ground (arith, high) in
      inr (
        ground (arith, high),
        subst (λ best. All (λ (y : Scored). y.score ≤ best) (x ∷ xs)) (sym same) (omega arith, d.0),
      )
]

-- A score that no asset of the model exceeds for these terms.
abbrev pub Best : List Asset → List Bytes → ℕ → Type 0
Best assets terms best =
    (12 ≤ best)
    × All (λ (a : Asset). (score_asset terms (numeric_terms terms) a).score ≤ best) assets

pub eligibility_score-Best :
    (assets : List Asset) (terms : List Bytes)
    → let best = eligibility_score (scored assets terms) in (best ≡ 0) ⊎ Best assets terms best
unfolding scored
eligibility_score-Best assets terms = elim (best-All (scored assets terms) (sort-Descending _)) [
  | inl none_best ↦ inl none_best
  | inr (high, all) ↦
      let best = eligibility_score (scored assets terms) in
      let score = score_asset terms (numeric_terms terms) in
      let listed =
        sort-All (λ (y : Scored). y.score ≤ best) before
          (filter (λ (item : Scored). ltb 0 item.score) (map score assets)) all in
      let marked =
        filter-All (λ (y : Scored). y.score ≤ best) (λ (item : Scored). ltb 0 item.score)
          (map score assets) listed in
      let every =
        map-All score (λ (y : Scored). (ltb 0 y.score ≡ false) ⊎ (y.score ≤ best)) assets marked in
      inr (high, All-weaken (λ a either. ground (arith, either)) assets every)
]
