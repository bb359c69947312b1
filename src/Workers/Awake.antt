-- ===== src/Workers/Awake.antt =====
-- The condition variable of worker_pool.cpp: after `shutdown` has notified, no worker sleeps.
use ctm.Prelude.{
  ℕ, ◌≤◌, ◌≡◌, ◌⊎◌, refl, inl, inr, Bool, true, false, List, [], ◌∷◌, none, some, arith, get_elem?,
  Option-cases, Bool-cases,
}
use ctm.Workers.{
  Pool, Phase, ready, waiting, leaving, counting, exited, running, enqueue, dispatch, take_job,
  step_phase, step_worker, begin_shutdown, Event, dispatches, works, wakes, shuts_down, notifies,
  notify, wake, wake_first, notify_one, notify_all, step, run,
}
use ctm.Workers.Counts.{total, total-set}

module _ {Job : Type 0} where
  -- Asleep in the wait.
  abbrev pub asleep : Phase Job → ℕ
  asleep waiting = 1
  asleep (running job) = 0
  asleep ready = 0
  asleep leaving = 0
  asleep counting = 0
  asleep exited = 0

  -- A wake-up lowers what is less awake than asleep.
  module _ (f : Phase Job → ℕ) (less : f ready ≤ f waiting) where
    pub total-wake_le : (i : ℕ) (ws : List (Phase Job)) → total f (wake i ws) ≤ total f ws
    unfolding wake
    total-wake_le i ws = elim (Option-cases (get_elem? ws i)) [
      | inl absent ↦ ground (arith, absent)
      | inr (waiting, here) ↦ ground (arith, here, less, total-set f ws i ready waiting here)
      | inr (ready, here) ↦ ground (arith, here)
      | inr (leaving, here) ↦ ground (arith, here)
      | inr (counting, here) ↦ ground (arith, here)
      | inr (exited, here) ↦ ground (arith, here)
      | inr (running job, here) ↦ ground (arith, here)
    ]

    pub total-wake_first_le : (ws : List (Phase Job)) → total f (wake_first ws) ≤ total f ws
    unfolding wake_first total
    total-wake_first_le [] = omega arith
    total-wake_first_le (waiting ∷ ws) = omega (arith, less)
    total-wake_first_le (ready ∷ ws) = omega (arith, total-wake_first_le ws)
    total-wake_first_le (leaving ∷ ws) = omega (arith, total-wake_first_le ws)
    total-wake_first_le (counting ∷ ws) = omega (arith, total-wake_first_le ws)
    total-wake_first_le (exited ∷ ws) = omega (arith, total-wake_first_le ws)
    total-wake_first_le (running job ∷ ws) = omega (arith, total-wake_first_le ws)

    pub total-notify_one_le :
        (i : ℕ) (ws : List (Phase Job)) → total f (notify_one i ws) ≤ total f ws
    unfolding notify_one
    total-notify_one_le i ws = elim (Option-cases (get_elem? ws i)) [
      | inl absent ↦ ground (arith, absent, total-wake_first_le ws)
      | inr (waiting, here) ↦ ground (arith, here, less, total-set f ws i ready waiting here)
      | inr (ready, here) ↦ ground (arith, here, total-wake_first_le ws)
      | inr (leaving, here) ↦ ground (arith, here, total-wake_first_le ws)
      | inr (counting, here) ↦ ground (arith, here, total-wake_first_le ws)
      | inr (exited, here) ↦ ground (arith, here, total-wake_first_le ws)
      | inr (running job, here) ↦ ground (arith, here, total-wake_first_le ws)
    ]

    pub total-notify_all_le : (ws : List (Phase Job)) → total f (notify_all ws) ≤ total f ws
    unfolding notify_all total
    total-notify_all_le [] = omega arith
    total-notify_all_le (waiting ∷ ws) = omega (arith, less, total-notify_all_le ws)
    total-notify_all_le (ready ∷ ws) = omega (arith, total-notify_all_le ws)
    total-notify_all_le (leaving ∷ ws) = omega (arith, total-notify_all_le ws)
    total-notify_all_le (counting ∷ ws) = omega (arith, total-notify_all_le ws)
    total-notify_all_le (exited ∷ ws) = omega (arith, total-notify_all_le ws)
    total-notify_all_le (running job ∷ ws) = omega (arith, total-notify_all_le ws)

  notify_all-asleep : (ws : List (Phase Job)) → total asleep (notify_all ws) ≡ 0
  unfolding notify_all total
  notify_all-asleep [] = refl
  notify_all-asleep (waiting ∷ ws) = omega (arith, notify_all-asleep ws)
  notify_all-asleep (ready ∷ ws) = omega (arith, notify_all-asleep ws)
  notify_all-asleep (leaving ∷ ws) = omega (arith, notify_all-asleep ws)
  notify_all-asleep (counting ∷ ws) = omega (arith, notify_all-asleep ws)
  notify_all-asleep (exited ∷ ws) = omega (arith, notify_all-asleep ws)
  notify_all-asleep (running job ∷ ws) = omega (arith, notify_all-asleep ws)

  -- After the notification of `shutdown` no worker sleeps, or falls asleep again.
  abbrev pub Woken : Pool Job → Type 0
  Woken p = (p.stopping ≡ false) ⊎ (p.notifying ≡ true) ⊎ (total asleep p.workers ≡ 0)

  take_job-Woken :
      (p : Pool Job) (i : ℕ) (q : List Job)
      → p.queue ≡ q
      → get_elem? p.workers i ≡ some ready
      → Woken p
      → Woken (take_job p i)
  unfolding take_job
  take_job-Woken p i [] e h d = elim (Bool-cases p.stopping) [
    | inl stops ↦ ground (arith, e, stops, total-set asleep p.workers i exited ready h)
    | inr goes ↦ ground (arith, e, goes)
  ]
  take_job-Woken p i (job ∷ rest) e h d =
      ground (arith, e, total-set asleep p.workers i (running job) ready h)

  step_phase-Woken :
      (p : Pool Job) (i : ℕ) (throws : Bool) (w : Phase Job)
      → get_elem? p.workers i ≡ some w
      → Woken p
      → Woken (step_phase p i throws w)
  unfolding step_phase
  step_phase-Woken p i throws ready h d = take_job-Woken p i p.queue refl h d
  step_phase-Woken p i throws waiting h d = d
  step_phase-Woken p i throws (running job) h d =
      ground (arith, total-set asleep p.workers i leaving (running job) h)
  step_phase-Woken p i throws leaving h d =
      ground (arith, total-set asleep p.workers i counting leaving h)
  step_phase-Woken p i throws counting h d =
      ground (arith, total-set asleep p.workers i ready counting h)
  step_phase-Woken p i throws exited h d = d

  step-Woken : (p : Pool Job) (e : Event Job) → Woken p → Woken (step p e)
  unfolding step step_worker begin_shutdown notify dispatch enqueue
  step-Woken p (dispatches none i) d = d
  step-Woken p (dispatches (some job) i) d =
      ground (arith, total-notify_one_le asleep (omega arith) i p.workers)
  step-Woken p (works i throws) d = elim (Option-cases (get_elem? p.workers i)) [
    | inl absent ↦ rw (absent, step, step_worker) d
    | inr (w, here) ↦ rw (here, step, step_worker) (step_phase-Woken p i throws w here d)
  ]
  step-Woken p (wakes i) d = ground (arith, total-wake_le asleep (omega arith) i p.workers)
  step-Woken p shuts_down d = ground arith
  step-Woken p notifies d = ground (arith, notify_all-asleep p.workers)

  pub run-Woken : (p : Pool Job) (es : List (Event Job)) → Woken p → Woken (run p es)
  unfolding run
  run-Woken p [] d = d
  run-Woken p (e ∷ es) d = run-Woken (step p e) es (step-Woken p e d)
