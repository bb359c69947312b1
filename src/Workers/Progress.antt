-- ===== src/Workers/Progress.antt =====
-- Why `shutdown` of worker_pool.cpp ends: a measure that each step of a worker lowers.
use ctm.Prelude.{
  ℕ, ◌+◌, ◌*◌, ◌≤◌, ◌≡◌, ◌≢◌, refl, ap, inl, inr, Bool, true, false, List, [], ◌∷◌, none, some,
  arith, length, get_elem?, zero, suc, Option-cases,
}
use ctm.Workers.{
  Pool, Phase, ready, waiting, leaving, counting, exited, running, enqueue, dispatch, take_job,
  step_phase, step_worker, begin_shutdown, notify, Event, dispatches, works, wakes, shuts_down,
  notifies, step, run,
}
use ctm.Workers.Counts.{total, total-set, total-wake, total-notify_all}
use ctm.Workers.Invariant.{Inv, idle, idle-Inv, run-Inv}
use ctm.Workers.Awake.{asleep, run-Woken}

module _ {Job : Type 0} where
  -- How many steps a worker still has before it waits again, and before it returns.
  abbrev rank : Phase Job → ℕ
  rank (running job) = 4
  rank leaving = 3
  rank counting = 2
  rank ready = 1
  rank waiting = 1
  rank exited = 0

  pub remaining : Pool Job → ℕ
  remaining p = 4 * length p.queue + total rank p.workers

  asleep_there :
      (ws : List (Phase Job)) (i : ℕ) → get_elem? ws i ≡ some waiting → total asleep ws ≢ 0
  unfolding total
  asleep_there [] i h = cc
  asleep_there (w ∷ ws) zero h = ground arith
  asleep_there (w ∷ ws) (suc i) h = ground (arith, asleep_there ws i)

  take_job-remaining :
      (p : Pool Job) (i : ℕ) (q : List Job)
      → p.queue ≡ q
      → get_elem? p.workers i ≡ some ready
      → p.stopping ≡ true
      → remaining (take_job p i) + 1 ≡ remaining p
  unfolding take_job remaining
  take_job-remaining p i [] e h s = ground (arith, e, total-set rank p.workers i exited ready h)
  take_job-remaining p i (job ∷ rest) e h s =
      ground (arith, e, ap length e, total-set rank p.workers i (running job) ready h)

  step_phase-remaining :
      (p : Pool Job) (i : ℕ) (throws : Bool) (w : Phase Job)
      → get_elem? p.workers i ≡ some w
      → w ≢ exited
      → p.stopping ≡ true
      → total asleep p.workers ≡ 0
      → remaining (step_phase p i throws w) + 1 ≡ remaining p
  unfolding step_phase remaining
  step_phase-remaining p i throws ready h ne s a = take_job-remaining p i p.queue refl h s
  step_phase-remaining p i throws waiting h ne s a = absurd (asleep_there p.workers i h a)
  step_phase-remaining p i throws (running job) h ne s a =
      ground (arith, total-set rank p.workers i leaving (running job) h)
  step_phase-remaining p i throws leaving h ne s a =
      ground (arith, total-set rank p.workers i counting leaving h)
  step_phase-remaining p i throws counting h ne s a =
      ground (arith, total-set rank p.workers i ready counting h)
  step_phase-remaining p i throws exited h ne s a = absurd (ne refl)

  works-remaining :
      (p : Pool Job) (i : ℕ) (throws : Bool) (w : Phase Job)
      → get_elem? p.workers i ≡ some w
      → w ≢ exited
      → p.stopping ≡ true
      → total asleep p.workers ≡ 0
      → remaining (step p (works i throws)) + 1 ≡ remaining p
  unfolding step step_worker
  works-remaining p i throws w h ne s a =
      rw (h, step, step_worker) (step_phase-remaining p i throws w h ne s a)

  step_phase-exited_le :
      (p : Pool Job) (i : ℕ) (throws : Bool)
      → remaining (step_phase p i throws exited) ≤ remaining p
  unfolding step_phase
  step_phase-exited_le p i throws = omega arith

  phase-remaining_le :
      (p : Pool Job) (i : ℕ) (throws : Bool) (w : Phase Job)
      → get_elem? p.workers i ≡ some w
      → p.stopping ≡ true
      → total asleep p.workers ≡ 0
      → remaining (step_phase p i throws w) ≤ remaining p
  phase-remaining_le p i throws exited h s a = step_phase-exited_le p i throws
  phase-remaining_le p i throws ready h s a =
      omega (arith, step_phase-remaining p i throws ready h (λ e. cc) s a)
  phase-remaining_le p i throws waiting h s a = absurd (asleep_there p.workers i h a)
  phase-remaining_le p i throws (running job) h s a =
      omega (arith, step_phase-remaining p i throws (running job) h (λ e. cc) s a)
  phase-remaining_le p i throws leaving h s a =
      omega (arith, step_phase-remaining p i throws leaving h (λ e. cc) s a)
  phase-remaining_le p i throws counting h s a =
      omega (arith, step_phase-remaining p i throws counting h (λ e. cc) s a)

  step-remaining_le :
      (p : Pool Job) (e : Event Job)
      → Inv p
      → p.stopping ≡ true
      → total asleep p.workers ≡ 0
      → remaining (step p e) ≤ remaining p
  unfolding step step_worker begin_shutdown notify dispatch enqueue remaining
  step-remaining_le p (dispatches none i) v s a = omega arith
  step-remaining_le p (dispatches (some job) i) v s a = ground (arith, v)
  step-remaining_le p (works i throws) v s a = elim (Option-cases (get_elem? p.workers i)) [
    | inl absent ↦ ground (arith, absent)
    | inr (w, here) ↦ ground (arith, here, phase-remaining_le p i throws w here s a)
  ]
  step-remaining_le p (wakes i) v s a = omega (arith, total-wake rank refl i p.workers)
  step-remaining_le p shuts_down v s a = ground arith
  step-remaining_le p notifies v s a = ground (arith, total-notify_all rank refl p.workers)

  -- Once `shutdown` has stopped a pool and notified its workers, whatever happened before: each step of a worker that
  -- has not returned brings the end one step nearer, so none is blocked; and nothing that any
  -- thread does puts the end off.
  pub shutdown_progress :
      (n capacity : ℕ) (es : List (Event Job))
      → (run (idle n capacity) es).stopping ≡ true
      → (run (idle n capacity) es).notifying ≡ false
      → let p = run (idle n capacity) es in
        ((i : ℕ) (throws : Bool) (w : Phase Job)
          → get_elem? p.workers i ≡ some w
          → w ≢ exited
          → remaining (step p (works i throws)) + 1 ≡ remaining p)
        × ((e : Event Job) → remaining (step p e) ≤ remaining p)
  shutdown_progress n capacity es s told =
      let p = run (idle {Job = Job} n capacity) es in
      let a : total asleep p.workers ≡ 0 =
        ground (arith, run-Woken (idle {Job = Job} n capacity) es (inl refl)) in
      let v = run-Inv (idle {Job = Job} n capacity) es (idle-Inv n capacity) in
      (λ i throws w h ne. works-remaining p i throws w h ne s a, λ e. step-remaining_le p e v s a)
