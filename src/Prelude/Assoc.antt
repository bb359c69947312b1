-- ===== src/Prelude/Assoc.antt =====
-- `std::unordered_map` and `std::map` as association lists over keys with a decidable equality.
use Prim.Native.Nat.{◌+◌}
use mathlib.Core.Path.{◌≡◌, refl, sym, ◌∙◌, subst}
use mathlib.Core.Logic.{◌≢◌, ite, if_pos, if_neg}
use mathlib.Core.List.{List, [], ◌∷◌}
use mathlib.Core.Option.{Option, none, some}
use native.Mathlib.Omega.{arith}
use ctm.Prelude.Lists.{length}

module _ {ℓ} {K V : Type ℓ} (dec : Discrete K) where
  unfoldable pub find : K → List (K × V) → Option V
  find k [] = none
  find k ((j, v) ∷ m) = ite (dec j k) (some v) (find k m)

  -- `m[k] = v`: overwrites in place, or adds an entry.
  unfoldable pub assign : K → V → List (K × V) → List (K × V)
  assign k v [] = (k, v) ∷ []
  assign k v ((j, w) ∷ m) = ite (dec j k) ((j, v) ∷ m) ((j, w) ∷ assign k v m)

  unfoldable pub erase : K → List (K × V) → List (K × V)
  erase k [] = []
  erase k ((j, v) ∷ m) = ite (dec j k) m ((j, v) ∷ erase k m)

  -- No key twice, as in any map of the standard library.
  abbrev pub Distinct : List (K × V) → Type ℓ
  Distinct [] = Unit
  Distinct ((k, v) ∷ m) = (find k m ≡ none) × Distinct m

  pub find-assign_self : (k : K) (v : V) (m : List (K × V)) → find k (assign k v m) ≡ some v
  unfolding find assign
  find-assign_self k v [] = if_pos (dec k k) refl _ _
  find-assign_self k v ((j, w) ∷ m) = ground (arith, find-assign_self k v m)

  pub find-assign_ne :
      (k q : K) (v : V) (m : List (K × V)) → k ≢ q → find q (assign k v m) ≡ find q m
  unfolding find assign
  find-assign_ne k q v [] h = ground arith
  find-assign_ne k q v ((j, w) ∷ m) h = ground (arith, find-assign_ne k q v m)

  pub find-assign :
      (k q : K) (v : V) (m : List (K × V))
      → find q (assign k v m) ≡ ite (dec k q) (some v) (find q m)
  find-assign k q v m = elim (dec k q) [
    | yes same ↦
        subst (λ j. find j (assign k v m) ≡ some v) same (find-assign_self k v m)
        ∙ sym (if_pos (dec k q) same _ _)
    | no other ↦ find-assign_ne k q v m other ∙ sym (if_neg (dec k q) other _ _)
  ]

  pub find-erase_ne : (k q : K) (m : List (K × V)) → k ≢ q → find q (erase k m) ≡ find q m
  unfolding find erase
  find-erase_ne k q [] h = refl
  find-erase_ne k q ((j, w) ∷ m) h = ground (arith, find-erase_ne k q m)

  pub find-erase_self : (k : K) (m : List (K × V)) → Distinct m → find k (erase k m) ≡ none
  unfolding find erase
  find-erase_self k [] h = refl
  find-erase_self k ((j, w) ∷ m) h = ground (arith, find-erase_self k m h.1)

  pub erase-Distinct : (k : K) (m : List (K × V)) → Distinct m → Distinct (erase k m)
  unfolding find erase
  erase-Distinct k [] h = tt
  erase-Distinct k ((j, w) ∷ m) h = ground (arith, find-erase_ne k j m, erase-Distinct k m h.1)

  pub assign-Distinct : (k : K) (v : V) (m : List (K × V)) → Distinct m → Distinct (assign k v m)
  unfolding find assign
  assign-Distinct k v [] h = (refl, tt)
  assign-Distinct k v ((j, w) ∷ m) h =
      ground (arith, find-assign_ne k j v m, assign-Distinct k v m h.1)

  pub length-erase :
      (k : K) (v : V) (m : List (K × V)) → find k m ≡ some v → length (erase k m) + 1 ≡ length m
  unfolding find erase
  length-erase k v [] h = cc
  length-erase k v ((j, w) ∷ m) h = ground (arith, length-erase k v m)

  pub length-assign_old :
      (k : K) (u v : V) (m : List (K × V)) → find k m ≡ some u → length (assign k v m) ≡ length m
  unfolding find assign
  length-assign_old k u v [] h = cc
  length-assign_old k u v ((j, w) ∷ m) h = ground (arith, length-assign_old k u v m)

  pub length-assign_new :
      (k : K) (v : V) (m : List (K × V)) → find k m ≡ none → length (assign k v m) ≡ length m + 1
  unfolding find assign
  length-assign_new k v [] h = refl
  length-assign_new k v ((j, w) ∷ m) h = ground (arith, length-assign_new k v m)

  pub erase_absent : (k : K) (m : List (K × V)) → find k m ≡ none → erase k m ≡ m
  unfolding find erase
  erase_absent k [] h = refl
  erase_absent k ((j, w) ∷ m) h = ground (arith, erase_absent k m)
