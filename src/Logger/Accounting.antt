-- ===== src/Logger/Accounting.antt =====
-- What diagnostic_logger.cpp promises of every run: a bounded queue, records that are counted, and a queue
-- that is drained before the worker returns.
use ctm.Prelude.{
  subst, ℕ, suc, ◌+◌, ◌%◌, ◌<◌, ◌≤◌, ◌≡◌, refl, ◌⊎◌, Bool, true, false, not, ◌||◌, List, [], ◌∷◌,
  ◌++◌, Bytes, Option, none, some, arith, length, length-append, ltb, ◌==◌, if◌then◌else◌, u64_mod,
}
use ctm.Logger.{
  Config, Severity, Logger, waiting, returned, plain, record_rejected, low_severity, created,
  fall_back, fall_back_unless_low, enqueue, write, announce, take_record, end_write, begin_shutdown,
}
use ctm.Logger.Rotation.{Files, Environment, step_worker}

-- What the threads of the program do; `writes` has the arguments of `write`.
pub data Event : Type 0 where
  writes : Severity → ℕ → Bool → Option Bytes → Event
  announces shuts_down : Event
  works : Environment → Event

unfoldable pub step : Logger × Files → Event → Logger × Files
step (l, files) (writes severity event is_object encoded) =
    ((write l severity event is_object encoded).0, files)
step (l, files) announces = (announce l, files)
step (l, files) shuts_down = (begin_shutdown l, files)
step s (works env) = step_worker env s

unfoldable pub run : Logger × Files → List Event → Logger × Files
run s [] = s
run s (e ∷ es) = run (step s e) es

-- Whether `write` takes the arguments.
abbrev pub well_formed : ℕ → Bool → Bool
well_formed event is_object = not (event == 0 || ltb 128 event || not is_object)

-- The calls of `write` that take their arguments and get a text.
unfoldable pub calls : List Event → ℕ
calls [] = 0
calls (writes severity event is_object (some encoded) ∷ es) =
    let rest = calls es in if well_formed event is_object then suc rest else rest
calls (_ ∷ es) = calls es

-- A logger with a path, after `n` such calls.
pub record Inv (config : Config) (n : ℕ) (l : Logger) : Type 0 where
  pub configured : l.config ≡ config
  pub bounded : length l.queue ≤ config.queue_capacity
  pub flags : l.accepting ≡ not l.stopping
  pub counted : (l.accepted + l.announcing + l.dropped) % u64_mod ≡ n % u64_mod
  pub drained : l.phase ≡ returned → (l.stopping ≡ true) × (l.queue ≡ [])

write-Inv :
    (config : Config) (n : ℕ) (l : Logger) (severity : Severity) (event : ℕ) (is_object : Bool)
    (encoded : Bytes)
    → config.path_empty ≡ false
    → Inv config n l
    → Inv config
        (if well_formed event is_object then suc n else n)
        (write l severity event is_object (some encoded)).0
unfolding write enqueue fall_back_unless_low fall_back
write-Inv config n l severity event is_object encoded path v =
    ground (arith, v, length-append l.queue (encoded ∷ []))

unencoded-Inv :
    (config : Config) (n : ℕ) (l : Logger) (severity : Severity) (event : ℕ) (is_object : Bool)
    → Inv config n l
    → Inv config n (write l severity event is_object none).0
unfolding write
unencoded-Inv config n l severity event is_object v = ground (arith, v)

step_worker-Inv :
    (config : Config) (n : ℕ) (env : Environment) (l : Logger) (files : Files)
    → Inv config n l
    → Inv config n (step_worker env (l, files)).0
unfolding step_worker take_record end_write
step_worker-Inv config n env l files v = ground (arith, v)

-- The number of calls after one more event.
abbrev after : ℕ → Event → ℕ
after n (writes severity event is_object (some encoded)) =
    if well_formed event is_object then suc n else n
after n _ = n

step-Inv :
    (config : Config) (n : ℕ) (l : Logger) (files : Files) (e : Event)
    → config.path_empty ≡ false
    → Inv config n l
    → Inv config (after n e) (step (l, files) e).0
unfolding step announce begin_shutdown
step-Inv config n l files (writes severity event is_object (some encoded)) path v =
    write-Inv config n l severity event is_object encoded path v
step-Inv config n l files (writes severity event is_object none) path v =
    unencoded-Inv config n l severity event is_object v
step-Inv config n l files announces path v = ground (arith, v)
step-Inv config n l files shuts_down path v = ground (arith, v)
step-Inv config n l files (works env) path v = step_worker-Inv config n env l files v

after-calls : (n : ℕ) (e : Event) (es : List Event) → after n e + calls es ≡ n + calls (e ∷ es)
unfolding calls
after-calls n (writes severity event is_object (some encoded)) es = ground arith
after-calls n (writes severity event is_object none) es = refl
after-calls n announces es = refl
after-calls n shuts_down es = refl
after-calls n (works env) es = refl

run-Inv :
    (config : Config) (n : ℕ) (l : Logger) (files : Files) (es : List Event)
    → config.path_empty ≡ false
    → Inv config n l
    → Inv config (n + calls es) (run (l, files) es).0
unfolding run calls
run-Inv config n l files [] path v = subst (λ m. Inv config m l) (omega arith) v
run-Inv config n l files (e ∷ es) path v =
    subst (λ m. Inv config m (run (l, files) (e ∷ es)).0) (after-calls n e es)
      (run-Inv config (after n e) (step (l, files) e).0 (step (l, files) e).1 es path
        (step-Inv config n l files e path v))

-- From a new logger with a path, after any events in any order, the queue is within its capacity,
-- the logger accepts exactly while it is not stopping, every well-formed call of `write` is counted
-- once, as accepted, about to be, or dropped (modulo the width of the counters), and a worker that
-- has returned left no record in the queue.
pub run-created-Inv :
    (config : Config) (files : Files) (es : List Event)
    → config.path_empty ≡ false
    → Inv config (calls es) (run (created config waiting, files) es).0
run-created-Inv config files es path =
    let l = created config waiting in
    subst (λ n. Inv config n (run (l, files) es).0) (omega arith)
      (run-Inv config 0 l files es path (record {
        configured = refl;
        bounded = omega arith;
        flags = refl;
        counted = refl;
        drained = λ e. cc;
      }))

-- A well-formed record that is a warning or an error is never lost in silence: `write` queues it or
-- puts it on the standard error stream, or, when it is longer than the limits, says there that it was
-- rejected.
pub write-keeps :
    (l : Logger) (severity : Severity) (event : ℕ) (is_object : Bool) (encoded : Bytes)
    → well_formed event is_object ≡ true
    → low_severity severity ≡ false
    → let l' = (write l severity event is_object (some encoded)).0 in
      (l'.queue ≡ l.queue ++ encoded ∷ [])
      ⊎ ((l'.console ≡ l.console ++ plain encoded ∷ [])
          ⊎ ((l'.console ≡ l.console ++ record_rejected ∷ [])
              × ((l.config.maximum_record_bytes < length encoded)
                  ⊎ (l.config.rotation_bytes < length encoded))))
unfolding write enqueue fall_back_unless_low fall_back
write-keeps l severity event is_object encoded good high = ground arith
