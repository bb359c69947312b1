-- ===== src/Lifecycle.antt =====
-- src/context_hmi/lifecycle.hpp and lifecycle.cpp: `Machine`, the state machine of a component. Each
-- method runs under the lock. A `State` is one of the enumerators, so `valid_state` holds of every
-- value of the model, and the last `throw` of `state_name` is out of reach.
pub mod Paths
pub mod Tests
use Prim.Native.String.{String}
use ctm.Prelude.{
  ℕ, ◌+◌, Bool, true, false, not, ◌||◌, Bytes, codes, length, ltb, ◌==◌, if◌then◌else◌, u64_mod,
  ◌-◌, Result, ok, err, [],
}

pub data State : Type 0 where
  disabled starting ready paused degraded stopping stopped failed : State

pub data Error : Type 0 where
  component_invalid reason_too_long illegal_transition counter_exhausted : Error

abbrev pub maximum_component_bytes : ℕ
maximum_component_bytes = 128

abbrev pub maximum_reason_bytes : ℕ
maximum_reason_bytes = 1024

-- The number of an enumerator, in the order of the declaration.
abbrev pub number : State → ℕ
number disabled = 0
number starting = 1
number ready = 2
number paused = 3
number degraded = 4
number stopping = 5
number stopped = 6
number failed = 7

infix 50 ◌is◌
abbrev pub ◌is◌ : State → State → Bool
a is b = number a == number b

-- The `switch` of `allowed`.
abbrev pub table : State → State → Bool
table disabled next = next is starting || next is stopping || next is stopped
table starting next = next is ready || next is degraded || next is failed || next is stopping
table ready next = next is paused || next is degraded || next is failed || next is stopping
table paused next = next is ready || next is degraded || next is failed || next is stopping
table degraded next = next is ready || next is paused || next is failed || next is stopping
table failed next = next is starting || next is stopping
table stopping next = next is stopped || next is failed
table stopped next = false

unfoldable pub allowed : State → State → Bool
allowed current next = if current is next then true else table current next

pub record Machine : Type 0 where
  pub component : Bytes
  pub state : State
  pub reason : Bytes
  pub transitions : ℕ

-- The constructor.
unfoldable pub create : Bytes → State → Result Error Machine
create component initial =
    if length component == 0 || ltb maximum_component_bytes (length component)
    then err component_invalid
    else ok (record { component = component; state = initial; reason = []; transitions = 0 })

unfoldable pub transition : Machine → State → Bytes → Result Error Machine
transition m next reason =
    if ltb maximum_reason_bytes (length reason)
    then err reason_too_long
    else if not (allowed m.state next)
    then err illegal_transition
    else if m.state is next
    then ok (record m { state = next; reason = reason })
    else if m.transitions == u64_mod - 1
    then err counter_exhausted
    else ok (record m { state = next; reason = reason; transitions = m.transitions + 1 })

unfoldable pub state_name : State → Bytes
state_name disabled = codes "disabled"
state_name starting = codes "starting"
state_name ready = codes "ready"
state_name paused = codes "paused"
state_name degraded = codes "degraded"
state_name stopping = codes "stopping"
state_name stopped = codes "stopped"
state_name failed = codes "failed"
