-- ===== src/Workers/Tests.antt =====
-- The theorems about worker_pool.cpp at concrete inputs: a worker that falls asleep, two jobs, a shutdown.
use ctm.Prelude.{
  ℕ, ◌+◌, ◌≤◌, ◌≡◌, ◌≢◌, Bool, refl, true, false, List, [], ◌∷◌, ◌++◌, some, arith, get_elem?, ltb,
}
use ctm.Workers.{
  Pool, Phase, exited, create, enqueue, dispatch, take_job, step_phase, step_worker, begin_shutdown,
  all_exited, notify_one, notify_all, notify, wake_first, Event, dispatches, works, shuts_down,
  notifies, step, run,
}
use ctm.Workers.Counts.{total}
use ctm.Workers.Invariant.{Inv, idle, run-create-Inv}
use ctm.Workers.Fifo.{accepted, started, called, matching, held, run-fifo}
use ctm.Workers.Shutdown.{shutdown_completes}
use ctm.Workers.Progress.{remaining, shutdown_progress}

abbrev turn : Event ℕ
turn = works 0 false

-- The worker sleeps, a job wakes it, and a shutdown comes while the job runs.
abbrev stopped : List (Event ℕ)
stopped =
    turn
    ∷ dispatches (some 5) 0
    ∷ turn
    ∷ dispatches (some 6) 0
    ∷ shuts_down
    ∷ dispatches (some 7) 0
    ∷ notifies
    ∷ []

abbrev events : List (Event ℕ)
events = stopped ++ turn ∷ turn ∷ turn ∷ turn ∷ turn ∷ turn ∷ turn ∷ turn ∷ []

abbrev pool : Pool ℕ
pool = idle 1 4

run-create-Inv_example : Inv (run pool events)
unfolding create
run-create-Inv_example = run-create-Inv 1 4 events refl

abbrev small : ℕ → Bool
small job = ltb job 6

run-fifo_example :
    ([] ++ accepted pool events ≡ started pool events ++ (run pool events).queue)
    × (matching small (started pool events) + total (held small) pool.workers
        ≡ matching small (called pool events) + total (held small) (run pool events).workers)
run-fifo_example = run-fifo pool events small

shutdown_completes_example :
    let p = run pool events in
    (p.queue ≡ []) × (p.active ≡ 0) × (p.completed ≡ p.submitted) × (p.stopping ≡ true)
unfolding run step dispatch enqueue step_worker begin_shutdown all_exited step_phase take_job
    notify_one notify_all notify wake_first
shutdown_completes_example = shutdown_completes 1 4 events (omega arith) refl

shutdown_progress_example :
    let p = run pool stopped in
    ((i : ℕ) (throws : Bool) (w : Phase ℕ)
      → get_elem? p.workers i ≡ some w
      → w ≢ exited
      → remaining (step p (works i throws)) + 1 ≡ remaining p)
    × ((e : Event ℕ) → remaining (step p e) ≤ remaining p)
unfolding run step dispatch enqueue step_worker begin_shutdown step_phase take_job notify_one
    notify_all notify wake_first
shutdown_progress_example = shutdown_progress 1 4 stopped refl refl
