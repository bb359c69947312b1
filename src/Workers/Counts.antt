-- ===== src/Workers/Counts.antt =====
-- Sums over the workers of worker_pool.cpp by their phases.
use ctm.Prelude.{
  ℕ, zero, suc, ◌+◌, ◌≡◌, refl, true, inl, inr, Option-cases, List, [], ◌∷◌, some, arith, length,
  set, get_elem?, replicate,
}
use ctm.Workers.{
  Phase, ready, waiting, leaving, counting, exited, running, all_exited, wake, wake_first,
  notify_one, notify_all,
}

module _ {Job : Type 0} where
  -- Counted in `active_`.
  abbrev pub busy : Phase Job → ℕ
  busy (running job) = 1
  busy leaving = 1
  busy ready = 0
  busy waiting = 0
  busy counting = 0
  busy exited = 0

  -- Took a job that is not yet counted in `completed_`.
  abbrev pub holding : Phase Job → ℕ
  holding (running job) = 1
  holding leaving = 1
  holding counting = 1
  holding ready = 0
  holding waiting = 0
  holding exited = 0

  unfoldable pub total : (Phase Job → ℕ) → List (Phase Job) → ℕ
  total f [] = 0
  total f (w ∷ ws) = f w + total f ws

  -- One worker changes its phase.
  pub total-set :
      (f : Phase Job → ℕ) (ws : List (Phase Job)) (i : ℕ) (v w : Phase Job)
      → get_elem? ws i ≡ some w
      → total f (set ws i v) + f w ≡ total f ws + f v
  unfolding total
  total-set f [] i v w h = cc
  total-set f (x ∷ ws) zero v w h = ground arith
  total-set f (x ∷ ws) (suc i) v w h = omega (arith, total-set f ws i v w h)

  pub total-replicate : (f : Phase Job → ℕ) (n : ℕ) → f ready ≡ 0 → total f (replicate n ready) ≡ 0
  unfolding total
  total-replicate f zero h = refl
  total-replicate f (suc n) h = omega (arith, total-replicate f n h)

  pub total-exited :
      (f : Phase Job → ℕ) (ws : List (Phase Job))
      → f exited ≡ 0
      → all_exited ws ≡ true
      → total f ws ≡ 0
  unfolding total all_exited
  total-exited f [] z h = refl
  total-exited f (exited ∷ ws) z h = omega (arith, total-exited f ws z h)
  total-exited f (ready ∷ ws) z h = absurd (ground arith)
  total-exited f (waiting ∷ ws) z h = absurd (ground arith)
  total-exited f (leaving ∷ ws) z h = absurd (ground arith)
  total-exited f (counting ∷ ws) z h = absurd (ground arith)
  total-exited f (running job ∷ ws) z h = absurd (ground arith)

  -- A notification changes no sum of a quantity that is the same asleep and awake.
  module _ (f : Phase Job → ℕ) (same : f ready ≡ f waiting) where
    pub total-wake : (i : ℕ) (ws : List (Phase Job)) → total f (wake i ws) ≡ total f ws
    unfolding wake
    total-wake i ws = elim (Option-cases (get_elem? ws i)) [
      | inl none_there ↦ ground (arith, none_there)
      | inr (waiting, here) ↦ ground (arith, here, same, total-set f ws i ready waiting here)
      | inr (ready, here) ↦ ground (arith, here)
      | inr (leaving, here) ↦ ground (arith, here)
      | inr (counting, here) ↦ ground (arith, here)
      | inr (exited, here) ↦ ground (arith, here)
      | inr (running job, here) ↦ ground (arith, here)
    ]

    pub total-wake_first : (ws : List (Phase Job)) → total f (wake_first ws) ≡ total f ws
    unfolding wake_first total
    total-wake_first [] = refl
    total-wake_first (waiting ∷ ws) = omega (arith, same)
    total-wake_first (ready ∷ ws) = omega (arith, total-wake_first ws)
    total-wake_first (leaving ∷ ws) = omega (arith, total-wake_first ws)
    total-wake_first (counting ∷ ws) = omega (arith, total-wake_first ws)
    total-wake_first (exited ∷ ws) = omega (arith, total-wake_first ws)
    total-wake_first (running job ∷ ws) = omega (arith, total-wake_first ws)

    pub total-notify_one : (i : ℕ) (ws : List (Phase Job)) → total f (notify_one i ws) ≡ total f ws
    unfolding notify_one
    total-notify_one i ws = elim (Option-cases (get_elem? ws i)) [
      | inl none_there ↦ ground (arith, none_there, total-wake_first ws)
      | inr (waiting, here) ↦ ground (arith, here, same, total-set f ws i ready waiting here)
      | inr (ready, here) ↦ ground (arith, here, total-wake_first ws)
      | inr (leaving, here) ↦ ground (arith, here, total-wake_first ws)
      | inr (counting, here) ↦ ground (arith, here, total-wake_first ws)
      | inr (exited, here) ↦ ground (arith, here, total-wake_first ws)
      | inr (running job, here) ↦ ground (arith, here, total-wake_first ws)
    ]

    pub total-notify_all : (ws : List (Phase Job)) → total f (notify_all ws) ≡ total f ws
    unfolding notify_all total
    total-notify_all [] = refl
    total-notify_all (waiting ∷ ws) = omega (arith, same, total-notify_all ws)
    total-notify_all (ready ∷ ws) = omega (arith, total-notify_all ws)
    total-notify_all (leaving ∷ ws) = omega (arith, total-notify_all ws)
    total-notify_all (counting ∷ ws) = omega (arith, total-notify_all ws)
    total-notify_all (exited ∷ ws) = omega (arith, total-notify_all ws)
    total-notify_all (running job ∷ ws) = omega (arith, total-notify_all ws)

  -- How many workers there are.
  abbrev pub one : Phase Job → ℕ
  one w = 1

  pub total-one : (ws : List (Phase Job)) → total one ws ≡ length ws
  unfolding total
  total-one [] = refl
  total-one (w ∷ ws) = omega (arith, total-one ws)
