-- ===== src/Workers/Invariant.antt =====
-- What every interleaving of the threads of worker_pool.cpp keeps.
use ctm.Prelude.{
  ℕ, ◌+◌, ◌%◌, ◌≤◌, ◌<◌, ◌≡◌, refl, ap, ◌⊎◌, inl, inr, Bool, true, false, not, List, [], ◌∷◌,
  Option, none, some, arith, length, set, get_elem?, length-append, Option-cases, Bool-cases,
  u64_mod, ok, err, replicate, subst,
}
use ctm.Workers.{
  Pool, limits_invalid, Phase, ready, waiting, leaving, counting, exited, running, create, enqueue,
  dispatch, take_job, step_phase, step_worker, begin_shutdown, Event, dispatches, works, wakes,
  shuts_down, notifies, notify, step, run,
}
use ctm.Workers.Counts.{
  busy, holding, total, total-set, total-replicate, total-wake, total-notify_one, total-notify_all,
}

module _ {Job : Type 0} where
  pub record Inv (p : Pool Job) : Type 0 where
    -- the queue is bounded
    pub bounded : length p.queue ≤ p.queue_capacity
    -- the pool accepts jobs until it stops
    pub flags : p.accepting ≡ not p.stopping
    -- `active_` counts the workers that run a job
    pub active : p.active ≡ total busy p.workers % u64_mod
    -- an accepted job is queued, held by a worker, or completed
    pub conserved : p.submitted ≡ (length p.queue + total holding p.workers + p.completed) % u64_mod
    pub completed_small : p.completed < u64_mod

  dispatch-Inv : (p : Pool Job) (job : Option Job) (i : ℕ) → Inv p → Inv (dispatch p job i).0
  unfolding dispatch enqueue
  dispatch-Inv p none i v = v
  dispatch-Inv p (some job) i v = ground (
    arith,
    v,
    length-append p.queue (job ∷ []),
    total-notify_one busy refl i p.workers,
    total-notify_one holding refl i p.workers,
  )

  module _ (p : Pool Job) (v : Inv p) (i : ℕ) where
    sums :
        (w w' : Phase Job)
        → get_elem? p.workers i ≡ some w
        → (total busy (set p.workers i w') + busy w ≡ total busy p.workers + busy w')
          × (total holding (set p.workers i w') + holding w ≡ total holding p.workers + holding w')
    sums w w' h = (total-set busy p.workers i w' w h, total-set holding p.workers i w' w h)

    take_job-Inv :
        (q : List Job) → p.queue ≡ q → get_elem? p.workers i ≡ some ready → Inv (take_job p i)
    unfolding take_job
    take_job-Inv [] e h = elim (Bool-cases p.stopping) [
      | inl stops ↦ ground (arith, v, e, stops, sums ready exited h)
      | inr goes ↦ ground (arith, v, e, goes, sums ready waiting h)
    ]
    take_job-Inv (job ∷ rest) e h = ground (arith, v, e, ap length e, sums ready (running job) h)

    step_phase-Inv :
        (throws : Bool) (w : Phase Job)
        → get_elem? p.workers i ≡ some w
        → Inv (step_phase p i throws w)
    unfolding step_phase
    step_phase-Inv throws ready h = take_job-Inv p.queue refl h
    step_phase-Inv throws waiting h = v
    step_phase-Inv throws (running job) h = ground (arith, v, sums (running job) leaving h)
    step_phase-Inv throws leaving h = ground (arith, v, sums leaving counting h)
    step_phase-Inv throws counting h = ground (arith, v, sums counting ready h)
    step_phase-Inv throws exited h = v

  step-Inv : (p : Pool Job) (e : Event Job) → Inv p → Inv (step p e)
  unfolding step begin_shutdown step_worker notify
  step-Inv p (dispatches job i) v = dispatch-Inv p job i v
  step-Inv p (works i throws) v = elim (Option-cases (get_elem? p.workers i)) [
    | inl gone ↦ rw (gone, step, step_worker) v
    | inr (w, here) ↦ rw (here, step, step_worker) (step_phase-Inv p v i throws w here)
  ]
  step-Inv p (wakes i) v =
      ground (arith, v, total-wake busy refl i p.workers, total-wake holding refl i p.workers)
  step-Inv p shuts_down v = ground (arith, v)
  step-Inv p notifies v =
      ground
        (arith, v, total-notify_all busy refl p.workers, total-notify_all holding refl p.workers)

  pub run-Inv : (p : Pool Job) (es : List (Event Job)) → Inv p → Inv (run p es)
  unfolding run
  run-Inv p [] v = v
  run-Inv p (e ∷ es) v = run-Inv (step p e) es (step-Inv p e v)

  -- A new pool.
  abbrev pub idle : ℕ → ℕ → Pool Job
  idle worker_count queue_capacity = record {
    queue_capacity = queue_capacity;
    queue = [];
    workers = replicate worker_count ready;
    accepting = true;
    stopping = false;
    notifying = false;
    submitted = 0;
    completed = 0;
    rejected = 0;
    failed = 0;
    active = 0;
  }

  pub idle-Inv : (worker_count queue_capacity : ℕ) → Inv (idle worker_count queue_capacity)
  idle-Inv worker_count queue_capacity = record {
    bounded = omega arith;
    flags = refl;
    active = omega (arith, total-replicate {Job = Job} busy worker_count refl);
    conserved = omega (arith, total-replicate {Job = Job} holding worker_count refl);
    completed_small = omega arith;
  }

  pub create_cases :
      (worker_count queue_capacity : ℕ)
      → (create {Job = Job} worker_count queue_capacity ≡ err limits_invalid)
        ⊎ ((create worker_count queue_capacity ≡ ok (idle worker_count queue_capacity))
            × (0 < worker_count)
            × (worker_count ≤ 256)
            × (0 < queue_capacity))
  unfolding create
  create_cases worker_count queue_capacity = ground arith

  -- From a new pool, whatever the threads do and in whatever order.
  pub run-create-Inv :
      (worker_count queue_capacity : ℕ) (es : List (Event Job)) {p : Pool Job}
      → create worker_count queue_capacity ≡ ok p
      → Inv (run p es)
  run-create-Inv worker_count queue_capacity es {p} made =
      run-Inv p es (elim (create_cases worker_count queue_capacity) [
        | inl bad ↦ cc
        | inr good ↦ subst Inv (ground (arith, made, good)) (idle-Inv worker_count queue_capacity)
      ])
