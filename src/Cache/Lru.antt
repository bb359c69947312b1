-- ===== src/Cache/Lru.antt =====
-- What bounded_cache.cpp promises: a list of slots, most recently used first, that has no nodes,
-- no table and no pointers.
use ctm.Prelude.{ℕ, ◌+◌, List, [], ◌∷◌, Option, none, some, leb, if◌then◌else◌, length, find, erase}

pub record Slot {ℓ} (V : Type ℓ) : Type ℓ where
  pub value : V
  pub expires_at : ℕ

-- All but the last.
unfoldable pub drop_last {ℓ} : {A : Type ℓ} → List A → List A
drop_last [] = []
drop_last (x ∷ []) = []
drop_last (x ∷ y ∷ xs) = x ∷ drop_last (y ∷ xs)

module _ {ℓ} {K V : Type ℓ} (dec : Discrete K) where
  -- A live slot moves to the front; one that has expired is dropped.
  unfoldable pub get : List (K × Slot V) → K → ℕ → List (K × Slot V) × Option V
  get l key now = elim (find dec key l) [
    | none ↦ (l, none)
    | some s ↦
        if leb s.expires_at now
        then (erase dec key l, none)
        else ((key, s) ∷ erase dec key l, some s.value)
  ]

  -- A new key at capacity takes the place of the least recently used slot.
  unfoldable pub put : ℕ → ℕ → List (K × Slot V) → K → V → ℕ → List (K × Slot V)
  put capacity ttl l key value now =
      let slot : Slot V = record { value = value; expires_at = now + ttl } in
      elim (find dec key l) [
        | some _ ↦ (key, slot) ∷ erase dec key l
        | none ↦ if leb capacity (length l) then (key, slot) ∷ drop_last l else (key, slot) ∷ l
      ]
