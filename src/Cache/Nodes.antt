-- ===== src/Cache/Nodes.antt =====
-- The recency list of bounded_cache.cpp against the entries in recency order: what following an
-- iterator, and looking at the last node, finds there.
use ctm.Prelude.{
  ℕ, suc, ◌<◌, ◌≡◌, refl, ap, ◌≢◌, if_pos, List, [], ◌∷◌, none, some, arith, length, find, erase,
  Distinct,
}
use ctm.Cache.{Node, Entry, unlink, back}
use ctm.Cache.Lru.{Slot, drop_last}

abbrev pub slot {ℓ} : {V : Type ℓ} → Entry V → Slot V
slot e = record { value = e.value; expires_at = e.expires_at }

module _ {ℓ} {K V : Type ℓ} where
  abbrev pub nodes : List (K × Entry V) → List (Node K)
  nodes [] = []
  nodes ((k, e) ∷ m) = record { id = e.recency; key = k } ∷ nodes m

  abbrev pub strip : List (K × Entry V) → List (K × Slot V)
  strip [] = []
  strip ((k, e) ∷ m) = (k, slot e) ∷ strip m

  -- No entry of the list has the node `i`.
  abbrev pub Unused : ℕ → List (K × Entry V) → Type 0
  Unused i [] = Unit
  Unused i ((k, e) ∷ m) = (e.recency ≢ i) × Unused i m

  abbrev pub DistinctNodes : List (K × Entry V) → Type 0
  DistinctNodes [] = Unit
  DistinctNodes ((k, e) ∷ m) = Unused e.recency m × DistinctNodes m

  abbrev pub Below : ℕ → List (K × Entry V) → Type 0
  Below n [] = Unit
  Below n ((k, e) ∷ m) = (e.recency < n) × Below n m

  pub Below-Unused : (n : ℕ) (m : List (K × Entry V)) → Below n m → Unused n m
  Below-Unused n [] h = tt
  Below-Unused n ((k, e) ∷ m) h = (omega arith, Below-Unused n m h.1)

  pub Below-suc : (n : ℕ) (m : List (K × Entry V)) → Below n m → Below (suc n) m
  Below-suc n [] h = tt
  Below-suc n ((k, e) ∷ m) h = (omega arith, Below-suc n m h.1)

  pub length-strip : (m : List (K × Entry V)) → length (strip m) ≡ length m
  length-strip [] = refl
  length-strip ((k, e) ∷ m) = ap suc (length-strip m)

  pub strip-drop_last : (m : List (K × Entry V)) → strip (drop_last m) ≡ drop_last (strip m)
  unfolding drop_last
  strip-drop_last [] = refl
  strip-drop_last ((k, e) ∷ []) = refl
  strip-drop_last ((k, e) ∷ (j, d) ∷ m) = ap (◌∷◌ (k, slot e)) (strip-drop_last ((j, d) ∷ m))

module _ {ℓ} {K V : Type ℓ} (dec : Discrete K) where
  pub find-strip :
      (q : K) (m : List (K × Entry V))
      → find dec q (strip m) ≡ elim (find dec q m) [ none ↦ none | some e ↦ some (slot e) ]
  unfolding find
  find-strip q [] = refl
  find-strip q ((k, e) ∷ m) = ground (arith, find-strip q m)

  pub strip-erase : (q : K) (m : List (K × Entry V)) → strip (erase dec q m) ≡ erase dec q (strip m)
  unfolding erase
  strip-erase q [] = refl
  strip-erase q ((k, e) ∷ m) = ground (arith, strip-erase q m)

  pub Unused-erase :
      (i : ℕ) (q : K) (m : List (K × Entry V)) → Unused i m → Unused i (erase dec q m)
  unfolding erase
  Unused-erase i q [] h = tt
  Unused-erase i q ((k, e) ∷ m) h = ground (arith, Unused-erase i q m h.1)

  pub Below-erase : (n : ℕ) (q : K) (m : List (K × Entry V)) → Below n m → Below n (erase dec q m)
  unfolding erase
  Below-erase n q [] h = tt
  Below-erase n q ((k, e) ∷ m) h = ground (arith, Below-erase n q m h.1)

  pub DistinctNodes-erase :
      (q : K) (m : List (K × Entry V)) → DistinctNodes m → DistinctNodes (erase dec q m)
  unfolding erase
  DistinctNodes-erase q [] h = tt
  DistinctNodes-erase q ((k, e) ∷ m) h =
      ground (arith, DistinctNodes-erase q m h.1, Unused-erase e.recency q m h.0)

  pub Unused-found :
      (i : ℕ) (q : K) (e : Entry V) (m : List (K × Entry V))
      → Unused i m
      → find dec q m ≡ some e
      → e.recency ≢ i
  unfolding find
  Unused-found i q e [] h f = cc
  Unused-found i q e ((k, d) ∷ m) h f = ground (arith, Unused-found i q e m h.1)

  -- Without its entry the list no longer uses the entry's node.
  pub Unused-erase_self :
      (q : K) (e : Entry V) (m : List (K × Entry V))
      → DistinctNodes m
      → find dec q m ≡ some e
      → Unused e.recency (erase dec q m)
  unfolding find erase
  Unused-erase_self q e [] h f = tt
  Unused-erase_self q e ((k, d) ∷ m) h f =
      ground (arith, Unused-erase_self q e m h.1, Unused-found d.recency q e m h.0)

  pub Below-found :
      (n : ℕ) (q : K) (e : Entry V) (m : List (K × Entry V))
      → Below n m
      → find dec q m ≡ some e
      → e.recency < n
  unfolding find
  Below-found n q e [] h f = cc
  Below-found n q e ((k, d) ∷ m) h f = ground (arith, Below-found n q e m h.1)

  -- The iterator of an entry leads to the node of its key.
  pub unlink-nodes :
      (q : K) (e : Entry V) (m : List (K × Entry V))
      → DistinctNodes m
      → find dec q m ≡ some e
      → unlink e.recency (nodes m) ≡ some (q, nodes (erase dec q m))
  unfolding find erase unlink
  unlink-nodes q e [] h f = cc
  unlink-nodes q e ((k, d) ∷ m) h f = elim (dec k q) [
    | yes p ↦ ground arith
    | no p ↦ ground (arith, unlink-nodes q e m h.1, Unused-found d.recency q e m h.0)
  ]

  -- The last node has the key of the last entry.
  pub back-nodes :
      (k : K) (e : Entry V) (m : List (K × Entry V))
      → Distinct dec ((k, e) ∷ m)
      → (q : K) × (d : Entry V) × (back (nodes ((k, e) ∷ m)) ≡ some q)
        × (find dec q ((k, e) ∷ m) ≡ some d)
        × (erase dec q ((k, e) ∷ m) ≡ drop_last ((k, e) ∷ m))
  unfolding find erase back drop_last
  back-nodes k e [] h = (k, e, refl, if_pos (dec k k) refl _ _, if_pos (dec k k) refl _ _)
  back-nodes k e ((j, d) ∷ m) h =
      let (q, last, b, f, r) = back-nodes j d m h.1 in
      elim (dec k q) [
        | yes p ↦ absurd (ground arith)
        | no p ↦ (q, last, b, ground arith, ground arith)
      ]
