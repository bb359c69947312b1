-- ===== src/Workers/Fifo.antt =====
-- The order of the jobs in worker_pool.cpp: workers run them in the order in which they were accepted.
use mathlib.Core.List.{append_assoc, append-nil}
use ctm.Prelude.{
  ℕ, ◌+◌, ◌≡◌, refl, ap, sym, ◌∙◌, Bool, List, [], ◌∷◌, ◌++◌, Option, none, some, arith, get_elem?,
  get_elem?-set, if◌then◌else◌, Option-cases, Bool-cases, inl, inr,
}
use ctm.Workers.{
  Pool, Phase, ready, waiting, leaving, counting, exited, running, enqueue, dispatch, take_job,
  step_phase, step_worker, begin_shutdown, notify, Event, dispatches, works, wakes, shuts_down,
  notifies, step, run,
}
use ctm.Workers.Counts.{total, total-set, total-wake, total-notify_one, total-notify_all}

module _ {Job : Type 0} where
  -- The job that an event adds to the queue.
  pub accepts : Pool Job → Event Job → List Job
  accepts p (dispatches (some job) i) = if (enqueue p job i).1 then job ∷ [] else []
  accepts p _ = []

  -- The job that a worker has in hand after a step and had not before.
  abbrev pub taken : Option (Phase Job) → Option (Phase Job) → List Job
  taken (some ready) (some (running job)) = job ∷ []
  taken _ _ = []

  -- The job that a worker takes in hand.
  pub starts : Pool Job → Event Job → List Job
  starts p (works i throws) =
      taken (get_elem? p.workers i) (get_elem? (step p (works i throws)).workers i)
  starts p _ = []

  -- The job that a worker has called, in the step that ends its call.
  abbrev pub in_hand : Option (Phase Job) → List Job
  in_hand (some (running job)) = job ∷ []
  in_hand _ = []

  pub calls : Pool Job → Event Job → List Job
  calls p (works i throws) = in_hand (get_elem? p.workers i)
  calls p _ = []

  -- The jobs of all events.
  pub accepted : Pool Job → List (Event Job) → List Job
  accepted p [] = []
  accepted p (e ∷ es) = accepts p e ++ accepted (step p e) es

  pub started : Pool Job → List (Event Job) → List Job
  started p [] = []
  started p (e ∷ es) = starts p e ++ started (step p e) es

  pub called : Pool Job → List (Event Job) → List Job
  called p [] = []
  called p (e ∷ es) = calls p e ++ called (step p e) es

  take_job-fifo :
      (p : Pool Job) (i : ℕ) (q : List Job)
      → p.queue ≡ q
      → get_elem? p.workers i ≡ some ready
      → p.queue ≡ taken (some ready) (get_elem? (take_job p i).workers i) ++ (take_job p i).queue
  unfolding take_job
  take_job-fifo p i [] e h = elim (Bool-cases p.stopping) [
    | inl stops ↦ ground (arith, e, stops, get_elem?-set p.workers i exited h)
    | inr goes ↦ ground (arith, e, goes, get_elem?-set p.workers i waiting h)
  ]
  take_job-fifo p i (job ∷ rest) e h = ground (arith, e, get_elem?-set p.workers i (running job) h)

  phase-fifo :
      (p : Pool Job) (i : ℕ) (throws : Bool) (w : Phase Job)
      → get_elem? p.workers i ≡ some w
      → p.queue
        ≡ taken (some w) (get_elem? (step_phase p i throws w).workers i)
          ++ (step_phase p i throws w).queue
  unfolding step_phase
  phase-fifo p i throws ready h = take_job-fifo p i p.queue refl h
  phase-fifo p i throws waiting h = refl
  phase-fifo p i throws (running job) h = ground arith
  phase-fifo p i throws leaving h = refl
  phase-fifo p i throws counting h = refl
  phase-fifo p i throws exited h = refl

  step-fifo :
      (p : Pool Job) (e : Event Job) → p.queue ++ accepts p e ≡ starts p e ++ (step p e).queue
  unfolding accepts starts step step_worker begin_shutdown notify dispatch enqueue
  step-fifo p (dispatches none i) = append-nil p.queue
  step-fifo p (dispatches (some job) i) = ground (arith, append-nil p.queue)
  step-fifo p (works i throws) = elim (Option-cases (get_elem? p.workers i)) [
    | inl gone ↦ ground (arith, gone, append-nil p.queue)
    | inr (w, here) ↦ ground (arith, here, append-nil p.queue, phase-fifo p i throws w here)
  ]
  step-fifo p (wakes i) = append-nil p.queue
  step-fifo p shuts_down = ground (arith, append-nil p.queue)
  step-fifo p notifies = ground (arith, append-nil p.queue)

  queue-fifo :
      (p : Pool Job) (es : List (Event Job))
      → p.queue ++ accepted p es ≡ started p es ++ (run p es).queue
  unfolding accepted started run
  queue-fifo p [] = append-nil p.queue
  queue-fifo p (e ∷ es) =
      sym (append_assoc p.queue (accepts p e) (accepted (step p e) es))
      ∙ ap (λ l. l ++ accepted (step p e) es) (step-fifo p e)
      ∙ append_assoc (starts p e) (step p e).queue (accepted (step p e) es)
      ∙ ap (◌++◌ (starts p e)) (queue-fifo (step p e) es)
      ∙ sym (append_assoc (starts p e) (started (step p e) es) (run (step p e) es).queue)

  -- How many of the jobs pass a test.
  pub matching : (Job → Bool) → List Job → ℕ
  matching q [] = 0
  matching q (job ∷ jobs) = (if q job then 1 else 0) + matching q jobs

  matching-append :
      (q : Job → Bool) (xs ys : List Job) → matching q (xs ++ ys) ≡ matching q xs + matching q ys
  unfolding matching
  matching-append q [] ys = omega arith
  matching-append q (x ∷ xs) ys = omega (arith, matching-append q xs ys)

  -- And how many of the jobs that the workers have in hand.
  abbrev pub held : (Job → Bool) → Phase Job → ℕ
  held q (running job) = if q job then 1 else 0
  held q _ = 0

  take_job-held :
      (q : Job → Bool) (p : Pool Job) (i : ℕ) (jobs : List Job)
      → p.queue ≡ jobs
      → get_elem? p.workers i ≡ some ready
      → matching q (taken (some ready) (get_elem? (take_job p i).workers i))
          + total (held q) p.workers
        ≡ total (held q) (take_job p i).workers
  unfolding take_job matching
  take_job-held q p i [] e h = elim (Bool-cases p.stopping) [
    | inl stops ↦ ground (
      arith,
      e,
      stops,
      get_elem?-set p.workers i exited h,
      total-set (held q) p.workers i exited ready h,
    )
    | inr goes ↦ ground (
      arith,
      e,
      goes,
      get_elem?-set p.workers i waiting h,
      total-set (held q) p.workers i waiting ready h,
    )
  ]
  take_job-held q p i (job ∷ rest) e h = ground (
    arith,
    e,
    get_elem?-set p.workers i (running job) h,
    total-set (held q) p.workers i (running job) ready h,
  )

  phase-held :
      (q : Job → Bool) (p : Pool Job) (i : ℕ) (throws : Bool) (w : Phase Job)
      → get_elem? p.workers i ≡ some w
      → matching q (taken (some w) (get_elem? (step_phase p i throws w).workers i))
          + total (held q) p.workers
        ≡ matching q (in_hand (some w)) + total (held q) (step_phase p i throws w).workers
  unfolding step_phase matching
  phase-held q p i throws ready h = omega (arith, take_job-held q p i p.queue refl h)
  phase-held q p i throws waiting h = refl
  phase-held q p i throws (running job) h =
      ground (arith, total-set (held q) p.workers i leaving (running job) h)
  phase-held q p i throws leaving h =
      ground (arith, total-set (held q) p.workers i counting leaving h)
  phase-held q p i throws counting h =
      ground (arith, total-set (held q) p.workers i ready counting h)
  phase-held q p i throws exited h = refl

  step-held :
      (q : Job → Bool) (p : Pool Job) (e : Event Job)
      → matching q (starts p e) + total (held q) p.workers
        ≡ matching q (calls p e) + total (held q) (step p e).workers
  unfolding starts calls step step_worker begin_shutdown notify dispatch enqueue matching
  step-held q p (dispatches none i) = refl
  step-held q p (dispatches (some job) i) =
      ground (arith, total-notify_one (held q) refl i p.workers)
  step-held q p (works i throws) = elim (Option-cases (get_elem? p.workers i)) [
    | inl gone ↦ ground (arith, gone)
    | inr (w, here) ↦ ground (arith, here, phase-held q p i throws w here)
  ]
  step-held q p (wakes i) = ground (arith, total-wake (held q) refl i p.workers)
  step-held q p shuts_down = ground arith
  step-held q p notifies = ground (arith, total-notify_all (held q) refl p.workers)

  run-held :
      (q : Job → Bool) (p : Pool Job) (es : List (Event Job))
      → matching q (started p es) + total (held q) p.workers
        ≡ matching q (called p es) + total (held q) (run p es).workers
  unfolding started called run
  run-held q p [] = refl
  run-held q p (e ∷ es) = omega (
    arith,
    matching-append q (starts p e) (started (step p e) es),
    matching-append q (calls p e) (called (step p e) es),
    step-held q p e,
    run-held q (step p e) es,
  )

  -- What was queued, then accepted, is what workers took in hand and then what is still queued, in this order;
  -- and of the jobs that pass any test, those taken and those in hand before are as many
  -- as those called and those still in hand. So no job is lost, called twice or overtaken.
  pub run-fifo :
      (p : Pool Job) (es : List (Event Job)) (q : Job → Bool)
      → (p.queue ++ accepted p es ≡ started p es ++ (run p es).queue)
        × (matching q (started p es) + total (held q) p.workers
            ≡ matching q (called p es) + total (held q) (run p es).workers)
  run-fifo p es q = (queue-fifo p es, run-held q p es)
