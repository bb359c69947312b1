-- ===== src/Workers.antt =====
-- src/context_hmi/worker_pool.hpp and worker_pool.cpp: `WorkerPool`. The threads are a list of phases, and a
-- step of one thread is what it does between two points where others may run: the section under
-- the lock, one atomic access, or one notification. A worker that sleeps on the condition variable
-- takes no step until it is notified or, as the standard allows, wakes for no reason; which worker
-- `notify_one` picks is an argument. Jobs are a parameter; whether a job throws is an argument of
-- the step that ends it. The future and the coroutine of `submit` stay outside: its queueing is that of
-- `dispatch`. The failure of a thread's creation in the constructor is not modelled.
pub mod Counts
pub mod Invariant
pub mod Fifo
pub mod Awake
pub mod Attended
pub mod Shutdown
pub mod Progress
pub mod Tests
use ctm.Prelude.{
  ℕ, suc, ◌+◌, ◌-◌, ◌%◌, Bool, true, false, not, ◌&&◌, ◌||◌, List, [], ◌∷◌, ◌++◌, Option, none,
  some, leb, ltb, ◌==◌, if◌then◌else◌, length, replicate, set, get_elem?, add64, u64_mod, Result,
  ok, err,
}

-- Where a worker is in `run`: about to test the wait's condition, asleep in the wait, in `job()`,
-- before the decrement of `active_`, before the increment of `completed_`, or returned.
pub data Phase (Job : Type 0) : Type 0 where
  ready waiting leaving counting exited : Phase Job
  running : Job → Phase Job

pub record Pool (Job : Type 0) : Type 0 where
  pub queue_capacity : ℕ
  pub queue : List Job
  pub workers : List (Phase Job)
  pub accepting : Bool
  pub stopping : Bool
  -- `shutdown` has set its flags and not yet called `notify_all`
  pub notifying : Bool
  pub submitted : ℕ
  pub completed : ℕ
  pub rejected : ℕ
  pub failed : ℕ
  pub active : ℕ

pub data Error : Type 0 where
  limits_invalid job_empty queue_full : Error

abbrev pub sub64 : ℕ → ℕ → ℕ
sub64 a b = (a + u64_mod - b) % u64_mod

-- The constructor; every thread is at the start of its loop.
unfoldable pub create : {Job : Type 0} → ℕ → ℕ → Result Error (Pool Job)
create worker_count queue_capacity =
    if worker_count == 0 || ltb 256 worker_count || queue_capacity == 0
    then err limits_invalid
    else ok (record {
      queue_capacity = queue_capacity;
      queue = [];
      workers = replicate worker_count ready;
      accepting = true;
      stopping = false;
      notifying = false;
      submitted = 0;
      completed = 0;
      rejected = 0;
      failed = 0;
      active = 0;
    })

-- What the threads of the program do to the pool.
pub data Event (Job : Type 0) : Type 0 where
  -- a call of `dispatch`, and the worker that its notification is for
  dispatches : Option Job → ℕ → Event Job
  works : ℕ → Bool → Event Job
  wakes : ℕ → Event Job
  shuts_down notifies : Event Job

module _ {Job : Type 0} where
  -- A wake-up of worker `i`, if it sleeps.
  unfoldable pub wake : ℕ → List (Phase Job) → List (Phase Job)
  wake i ws = elim (get_elem? ws i) [ some waiting ↦ set ws i ready | some _ ↦ ws | none ↦ ws ]

  unfoldable pub wake_first : List (Phase Job) → List (Phase Job)
  wake_first [] = []
  wake_first (waiting ∷ ws) = ready ∷ ws
  wake_first (w ∷ ws) = w ∷ wake_first ws

  -- `notify_one`: it wakes worker `i` if it sleeps, or else some other that does.
  unfoldable pub notify_one : ℕ → List (Phase Job) → List (Phase Job)
  notify_one i ws = elim (get_elem? ws i) [
    | some waiting ↦ set ws i ready
    | some _ ↦ wake_first ws
    | none ↦ wake_first ws
  ]

  unfoldable pub notify_all : List (Phase Job) → List (Phase Job)
  notify_all [] = []
  notify_all (waiting ∷ ws) = ready ∷ notify_all ws
  notify_all (w ∷ ws) = w ∷ notify_all ws

  unfoldable pub enqueue : Pool Job → Job → ℕ → Pool Job × Bool
  enqueue p job i =
      if not p.accepting || leb p.queue_capacity (length p.queue) then (p, false) else (
        record p {
          queue = p.queue ++ job ∷ [];
          submitted = add64 p.submitted 1;
          workers = notify_one i p.workers;
        },
        true,
      )

  -- An empty `std::function` is `none`.
  unfoldable pub dispatch : Pool Job → Option Job → ℕ → Pool Job × Result Error (Unit {0})
  dispatch p none i = (p, err job_empty)
  dispatch p (some job) i =
      let (q, queued) = enqueue p job i in
      if queued then (q, ok tt) else (record q { rejected = add64 q.rejected 1 }, err queue_full)

  -- The locked section of `run` in worker `i`, which falls asleep when the wait's condition is false.
  unfoldable pub take_job : Pool Job → ℕ → Pool Job
  take_job p i = elim p.queue [
    | [] ↦ record p { workers = set p.workers i (if p.stopping then exited else waiting) }
    | job ∷ rest ↦ record p {
      queue = rest;
      workers = set p.workers i (running job);
      active = add64 p.active 1;
    }
  ]

  -- One step of worker `i` in phase `phase`; a job that ends has thrown or not.
  unfoldable pub step_phase : Pool Job → ℕ → Bool → Phase Job → Pool Job
  unfolding take_job
  step_phase p i throws ready = take_job p i
  step_phase p i throws waiting = p
  step_phase p i throws (running job) =
      if throws
      then record p { workers = set p.workers i leaving; failed = add64 p.failed 1 }
      else record p { workers = set p.workers i leaving }
  step_phase p i throws leaving = record p {
    workers = set p.workers i counting;
    active = sub64 p.active 1;
  }
  step_phase p i throws counting = record p {
    workers = set p.workers i ready;
    completed = add64 p.completed 1;
  }
  step_phase p i throws exited = p

  unfoldable pub step_worker : Pool Job → ℕ → Bool → Pool Job
  step_worker p i throws = elim (get_elem? p.workers i) [
    | none ↦ p
    | some phase ↦ step_phase p i throws phase
  ]

  -- The locked section of `shutdown`; the second call returns at once.
  unfoldable pub begin_shutdown : Pool Job → Pool Job
  begin_shutdown p =
      if p.stopping then p else record p { accepting = false; stopping = true; notifying = true }

  -- The notification of `shutdown`, after it has released the lock.
  unfoldable pub notify : Pool Job → Pool Job
  notify p =
      if p.notifying then record p { workers = notify_all p.workers; notifying = false } else p

  -- The joins return when every thread has.
  unfoldable pub all_exited : List (Phase Job) → Bool
  all_exited [] = true
  all_exited (exited ∷ ws) = all_exited ws
  all_exited (w ∷ ws) = false

  unfoldable pub step : Pool Job → Event Job → Pool Job
  step p (dispatches job i) = (dispatch p job i).0
  step p (works i throws) = step_worker p i throws
  step p (wakes i) = record p { workers = wake i p.workers }
  step p shuts_down = begin_shutdown p
  step p notifies = notify p

  unfoldable pub run : Pool Job → List (Event Job) → Pool Job
  run p [] = p
  run p (e ∷ es) = run (step p e) es
