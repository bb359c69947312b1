-- ===== src/Lifecycle/Paths.antt =====
-- The moves and histories of a lifecycle machine (lifecycle.cpp), read by the state that is entered.
use ctm.Prelude.{
  ℕ, ◌+◌, ◌-◌, ◌^◌, ◌≤◌, ◌<◌, ◌≡◌, refl, ◌≢◌, ◌⊎◌, ◌↔◌, inl, inr, true, List, [], ◌∷◌, Bytes, arith,
  length, u64_mod, ok, err, Bool-cases, if◌then◌else◌,
}
use ctm.Lifecycle.{
  State, disabled, starting, ready, paused, degraded, stopping, stopped, failed, Machine, allowed,
  transition, state_name, ◌is◌,
}

-- The states from which a state can be entered.
abbrev pub Enters : State → State → Type 0
Enters s disabled = ⊥
Enters s starting = (s ≡ disabled) ⊎ (s ≡ failed)
Enters s ready = (s ≡ starting) ⊎ ((s ≡ paused) ⊎ (s ≡ degraded))
Enters s paused = (s ≡ ready) ⊎ (s ≡ degraded)
Enters s degraded = (s ≡ starting) ⊎ ((s ≡ ready) ⊎ (s ≡ paused))
Enters s stopping = (s ≢ stopping) × (s ≢ stopped)
Enters s stopped = (s ≡ disabled) ⊎ (s ≡ stopping)
Enters s failed = (s ≢ disabled) × (s ≢ stopped) × (s ≢ failed)

allowed→Enters : (a b : State) → allowed a b ≡ true → a ≢ b → Enters a b
unfolding allowed
allowed→Enters a disabled h ne = ground arith
allowed→Enters a starting h ne = ground arith
allowed→Enters a ready h ne = ground arith
allowed→Enters a paused h ne = ground arith
allowed→Enters a degraded h ne = ground arith
allowed→Enters a stopping h ne = ground arith
allowed→Enters a stopped h ne = ground arith
allowed→Enters a failed h ne = ground arith

Enters→allowed : (a b : State) → Enters a b → allowed a b ≡ true
unfolding allowed
Enters→allowed a disabled h = ground arith
Enters→allowed a starting h = ground arith
Enters→allowed a ready h = ground arith
Enters→allowed a paused h = ground arith
Enters→allowed a degraded h = ground arith
Enters→allowed a stopping h = ground arith
Enters→allowed a stopped h = ground arith
Enters→allowed a failed h = ground arith

is_eq : (a b : State) → (a is b) ≡ true → a ≡ b
is_eq disabled b h = ground arith
is_eq starting b h = ground arith
is_eq ready b h = ground arith
is_eq paused b h = ground arith
is_eq degraded b h = ground arith
is_eq stopping b h = ground arith
is_eq stopped b h = ground arith
is_eq failed b h = ground arith

-- What a successful call does to the machine.
abbrev pub moved : Machine → State → Bytes → Machine
moved m next reason = record m { state = next; reason = reason; transitions = m.transitions + 1 }

-- A call succeeds in entering another state exactly when the reason fits, the state can be entered
-- from the present one, and the counter is not exhausted; it then counts one transition.
pub transition_iff :
    (m : Machine) (next : State) (reason : Bytes)
    → m.state ≢ next
    → (transition m next reason ≡ ok (moved m next reason))
      ↔ ((length reason ≤ 1024) × Enters m.state next × (m.transitions ≢ 2 ^ 64 - 1))
unfolding transition
transition_iff m next reason other = (
  λ e. elim (Bool-cases (allowed m.state next)) [
    | inl fine ↦ (
      ground (arith, is_eq m.state next),
      allowed→Enters m.state next fine other,
      λ spent. ground (arith, spent, is_eq m.state next),
    )
    | inr bad ↦ absurd (ground (arith, is_eq m.state next))
  ],
  λ h. ground (arith, h.0, h.2, Enters→allowed m.state next h.1, is_eq m.state next),
)

-- Calls of `transition`, each caught by its caller: a refused call changes nothing.
pub attempt : Machine → State × Bytes → Machine
attempt m (next, reason) = elim (transition m next reason) [ ok m' ↦ m' | err _ ↦ m ]

pub run : Machine → List (State × Bytes) → Machine
run m [] = m
run m (call ∷ calls) = run (attempt m call) calls

attempt-stopped :
    (m : Machine) (call : State × Bytes)
    → m.state ≡ stopped
    → ((attempt m call).state ≡ stopped) × ((attempt m call).transitions ≡ m.transitions)
unfolding attempt transition allowed
attempt-stopped m (disabled, reason) h = ground arith
attempt-stopped m (starting, reason) h = ground arith
attempt-stopped m (ready, reason) h = ground arith
attempt-stopped m (paused, reason) h = ground arith
attempt-stopped m (degraded, reason) h = ground arith
attempt-stopped m (stopping, reason) h = ground arith
attempt-stopped m (stopped, reason) h = ground arith
attempt-stopped m (failed, reason) h = ground arith

-- A stopped machine stays stopped, whatever is asked of it.
pub run-stopped :
    (m : Machine) (calls : List (State × Bytes))
    → m.state ≡ stopped
    → ((run m calls).state ≡ stopped) × ((run m calls).transitions ≡ m.transitions)
unfolding run
run-stopped m [] h = (h, refl)
run-stopped m (call ∷ calls) h =
    ground (arith, attempt-stopped m call h, run-stopped (attempt m call) calls)

-- How often the state changes along a history.
pub changes : Machine → List (State × Bytes) → ℕ
changes m [] = 0
changes m (call ∷ calls) =
    let rest = changes (attempt m call) calls in
    if m.state is (attempt m call).state then rest else rest + 1

is_self : (a : State) → (a is a) ≡ true
is_self disabled = refl
is_self _ = refl

attempt-counts :
    (m : Machine) (call : State × Bytes)
    → (attempt m call).transitions
      ≡ (if m.state is (attempt m call).state then m.transitions else m.transitions + 1)
unfolding attempt transition
attempt-counts m (next, reason) = ground (arith, is_self m.state, is_eq m.state next)

attempt-bounded :
    (m : Machine) (call : State × Bytes)
    → m.transitions < u64_mod
    → (attempt m call).transitions < u64_mod
unfolding attempt transition
attempt-bounded m (next, reason) h = ground arith

-- The counter is the number of changes of the state, and never wraps.
pub transitions-run :
    (m : Machine) (calls : List (State × Bytes))
    → m.transitions < u64_mod
    → ((run m calls).transitions ≡ m.transitions + changes m calls)
      × ((run m calls).transitions < u64_mod)
unfolding run changes
transitions-run m [] h = (omega arith, h)
transitions-run m (call ∷ calls) h =
    ground (
      arith,
      attempt-counts m call,
      attempt-bounded m call h,
      transitions-run (attempt m call) calls,
    )

-- From every state but `stopped` there is an orderly way to stop in at most two moves.
pub stops_in_two :
    (m : Machine)
    → m.transitions + 2 < u64_mod
    → (run m ((stopping, []) ∷ (stopped, []) ∷ [])).state ≡ stopped
unfolding run attempt transition allowed
stops_in_two m h = ground arith

-- The names that `snapshot` reports tell the states apart.
pub state_name-injective : (a b : State) → state_name a ≡ state_name b → a ≡ b
unfolding state_name
state_name-injective disabled b h = ground arith
state_name-injective a b h = ground arith
