-- ===== src/Workers/Attended.antt =====
-- `notify_one` in worker_pool.cpp: while a job is queued, some worker is not asleep.
use ctm.Prelude.{ℕ, ◌<◌, ◌≡◌, ◌⊎◌, [], length}
use ctm.Workers.{Pool, Phase, ready, waiting, leaving, counting, exited, running}
use ctm.Workers.Counts.{total}

module _ {Job : Type 0} where
  -- Asleep or returned: such a worker will not take a job unless it is woken.
  abbrev pub off : Phase Job → ℕ
  off waiting = 1
  off exited = 1
  off (running job) = 0
  off ready = 0
  off leaving = 0
  off counting = 0

  -- A queued job has a worker that is neither asleep nor returned.
  abbrev pub Attended : Pool Job → Type 0
  Attended p = (p.queue ≡ []) ⊎ (total off p.workers < length p.workers)
