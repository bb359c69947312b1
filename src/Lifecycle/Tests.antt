-- ===== src/Lifecycle/Tests.antt =====
-- The theorems about lifecycle.cpp at concrete inputs.
use ctm.Prelude.{
  ℕ, ◌+◌, ◌-◌, ◌^◌, ◌≤◌, ◌<◌, ◌≡◌, refl, ◌≢◌, ◌↔◌, List, [], ◌∷◌, Bytes, codes, arith, length, ok,
  u64_mod,
}
use ctm.Lifecycle.{State, starting, ready, stopping, stopped, failed, paused, Machine, transition}
use ctm.Lifecycle.Paths.{
  Enters, moved, transition_iff, run, run-stopped, changes, transitions-run, stops_in_two,
  state_name-injective,
}

abbrev pump : State → Machine
pump s = record { component = codes "pump"; state = s; reason = []; transitions = 3 }

abbrev calls : List (State × Bytes)
calls = (ready, []) ∷ (stopped, []) ∷ (paused, codes "operator") ∷ []

transition_iff_example :
    (transition (pump starting) ready [] ≡ ok (moved (pump starting) ready []))
    ↔ ((length {A = ℕ} [] ≤ 1024) × Enters starting ready × (3 ≢ 2 ^ 64 - 1))
transition_iff_example = transition_iff (pump starting) ready [] (λ e. cc)

run-stopped_example :
    ((run (pump stopped) calls).state ≡ stopped) × ((run (pump stopped) calls).transitions ≡ 3)
run-stopped_example = run-stopped (pump stopped) calls refl

transitions-run_example :
    ((run (pump starting) calls).transitions ≡ 3 + changes (pump starting) calls)
    × ((run (pump starting) calls).transitions < u64_mod)
transitions-run_example = transitions-run (pump starting) calls (omega arith)

stops_in_two_example : (run (pump failed) ((stopping, []) ∷ (stopped, []) ∷ [])).state ≡ stopped
stops_in_two_example = stops_in_two (pump failed) (omega arith)

state_name-injective_example : failed ≡ failed
state_name-injective_example = state_name-injective failed failed refl
