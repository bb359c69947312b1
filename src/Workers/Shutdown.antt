-- ===== src/Workers/Shutdown.antt =====
-- `shutdown` of worker_pool.cpp: it ends, and when it has ended every accepted job was run.
use ctm.Prelude.{
  ℕ, ◌<◌, ◌≡◌, ◌≢◌, ◌⊎◌, refl, ◌∙◌, length-set, length-replicate, inl, inr, Bool, true, not, List,
  [], ◌∷◌, none, some, arith, length, get_elem?, Option-cases, Bool-cases,
}
use ctm.Workers.{
  Pool, Phase, ready, waiting, leaving, counting, exited, running, enqueue, dispatch, take_job,
  step_phase, step_worker, begin_shutdown, all_exited, Event, dispatches, works, wakes, shuts_down,
  notifies, notify, wake, notify_one, notify_all, step, run,
}
use ctm.Workers.Counts.{
  busy, holding, total, total-set, total-replicate, total-exited, total-wake, total-notify_one,
  total-notify_all, one, total-one,
}
use ctm.Workers.Invariant.{run-Inv, idle, idle-Inv}

module _ {Job : Type 0} where
  abbrev pub gone : Phase Job → ℕ
  gone exited = 1
  gone (running job) = 0
  gone ready = 0
  gone waiting = 0
  gone leaving = 0
  gone counting = 0

  -- A worker returns only when the pool is stopping and the queue is empty; both stay so.
  abbrev pub Drained : Pool Job → Type 0
  Drained p =
      (p.accepting ≡ not p.stopping)
      × ((total gone p.workers ≡ 0) ⊎ ((p.queue ≡ []) × (p.stopping ≡ true)))

  take_job-Drained :
      (p : Pool Job) (i : ℕ) (q : List Job)
      → p.queue ≡ q
      → get_elem? p.workers i ≡ some ready
      → Drained p
      → Drained (take_job p i)
  unfolding take_job
  take_job-Drained p i [] e h d = elim (Bool-cases p.stopping) [
    | inl stops ↦ ground (arith, e, stops)
    | inr goes ↦ ground (arith, e, goes, total-set gone p.workers i waiting ready h)
  ]
  take_job-Drained p i (job ∷ rest) e h d =
      ground (arith, e, total-set gone p.workers i (running job) ready h)

  step_phase-Drained :
      (p : Pool Job) (i : ℕ) (throws : Bool) (w : Phase Job)
      → get_elem? p.workers i ≡ some w
      → Drained p
      → Drained (step_phase p i throws w)
  unfolding step_phase
  step_phase-Drained p i throws waiting h d = d
  step_phase-Drained p i throws ready h d = take_job-Drained p i p.queue refl h d
  step_phase-Drained p i throws (running job) h d =
      ground (arith, total-set gone p.workers i leaving (running job) h)
  step_phase-Drained p i throws leaving h d =
      ground (arith, total-set gone p.workers i counting leaving h)
  step_phase-Drained p i throws counting h d =
      ground (arith, total-set gone p.workers i ready counting h)
  step_phase-Drained p i throws exited h d = d

  pub step-Drained : (p : Pool Job) (e : Event Job) → Drained p → Drained (step p e)
  unfolding step step_worker begin_shutdown notify dispatch enqueue
  step-Drained p (dispatches none i) d = d
  step-Drained p (dispatches (some job) i) d =
      ground (arith, total-notify_one gone refl i p.workers)
  step-Drained p (works i throws) d = elim (Option-cases (get_elem? p.workers i)) [
    | inl absent ↦ rw (absent, step, step_worker) d
    | inr (w, here) ↦ rw (here, step, step_worker) (step_phase-Drained p i throws w here d)
  ]
  step-Drained p (wakes i) d = ground (arith, total-wake gone refl i p.workers)
  step-Drained p shuts_down d = ground arith
  step-Drained p notifies d = ground (arith, total-notify_all gone refl p.workers)

  pub run-Drained : (p : Pool Job) (es : List (Event Job)) → Drained p → Drained (run p es)
  unfolding run
  run-Drained p [] d = d
  run-Drained p (e ∷ es) d = run-Drained (step p e) es (step-Drained p e d)

  gone-exited :
      (w : Phase Job) (ws : List (Phase Job)) → all_exited (w ∷ ws) ≡ true → total gone (w ∷ ws) ≢ 0
  unfolding all_exited total
  gone-exited exited ws h = omega arith
  gone-exited ready ws h = ground arith
  gone-exited waiting ws h = ground arith
  gone-exited leaving ws h = ground arith
  gone-exited counting ws h = ground arith
  gone-exited (running job) ws h = ground arith

  some-gone : (ws : List (Phase Job)) → 0 < length ws → all_exited ws ≡ true → total gone ws ≢ 0
  some-gone [] n h = absurd (omega arith)
  some-gone (w ∷ ws) n h = gone-exited w ws h

  take_job-workers :
      (p : Pool Job) (i : ℕ) (q : List Job)
      → p.queue ≡ q
      → length (take_job p i).workers ≡ length p.workers
  unfolding take_job
  take_job-workers p i [] e = elim (Bool-cases p.stopping) [
    | inl stops ↦ ground (arith, e, stops, length-set p.workers i exited)
    | inr goes ↦ ground (arith, e, goes, length-set p.workers i waiting)
  ]
  take_job-workers p i (job ∷ rest) e = ground (arith, e, length-set p.workers i (running job))

  step_phase-workers :
      (p : Pool Job) (i : ℕ) (throws : Bool) (w : Phase Job)
      → length (step_phase p i throws w).workers ≡ length p.workers
  unfolding step_phase
  step_phase-workers p i throws waiting = refl
  step_phase-workers p i throws ready = take_job-workers p i p.queue refl
  step_phase-workers p i throws (running job) = ground (arith, length-set p.workers i leaving)
  step_phase-workers p i throws leaving = length-set p.workers i counting
  step_phase-workers p i throws counting = length-set p.workers i ready
  step_phase-workers p i throws exited = refl

  pub step-workers : (p : Pool Job) (e : Event Job) → length (step p e).workers ≡ length p.workers
  unfolding step step_worker begin_shutdown notify dispatch enqueue
  step-workers p (dispatches none i) = refl
  step-workers p (dispatches (some job) i) = ground (
    arith,
    total-one p.workers,
    total-one (notify_one i p.workers),
    total-notify_one one refl i p.workers,
  )
  step-workers p (works i throws) = elim (Option-cases (get_elem? p.workers i)) [
    | inl absent ↦ ground (arith, absent)
    | inr (w, here) ↦ ground (arith, here, step_phase-workers p i throws w)
  ]
  step-workers p (wakes i) =
      omega
        (arith, total-one p.workers, total-one (wake i p.workers), total-wake one refl i p.workers)
  step-workers p shuts_down = ground arith
  step-workers p notifies = ground (
    arith,
    total-one p.workers,
    total-one (notify_all p.workers),
    total-notify_all one refl p.workers,
  )

  -- No step adds or removes a worker.
  pub run-workers :
      (p : Pool Job) (es : List (Event Job)) → length (run p es).workers ≡ length p.workers
  unfolding run
  run-workers p [] = refl
  run-workers p (e ∷ es) = run-workers (step p e) es ∙ step-workers p e

  -- Whatever happened before, when the joins return no job is queued, none is running, and every
  -- accepted job was completed.
  pub shutdown_completes :
      (n capacity : ℕ) (es : List (Event Job))
      → 0 < n
      → all_exited (run (idle n capacity) es).workers ≡ true
      → let p = run (idle n capacity) es in
        (p.queue ≡ []) × (p.active ≡ 0) × (p.completed ≡ p.submitted) × (p.stopping ≡ true)
  shutdown_completes n capacity es positive all =
      let p = run (idle {Job = Job} n capacity) es in
      let v = run-Inv (idle {Job = Job} n capacity) es (idle-Inv n capacity) in
      let d =
        run-Drained (idle {Job = Job} n capacity) es (refl, inl (total-replicate gone n refl)) in
      ground (
        arith,
        v,
        d,
        some-gone p.workers
            (omega (
              arith,
              run-workers (idle {Job = Job} n capacity) es,
              length-replicate {A = Phase Job} n ready,
            ))
            all,
        total-exited busy p.workers refl all,
        total-exited holding p.workers refl all,
      )
