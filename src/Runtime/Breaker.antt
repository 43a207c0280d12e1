-- ===== src/Runtime/Breaker.antt =====
-- app/services/runtime/resilience.py, `call_with_circuit_breaker`. The guarded function runs outside
-- the lock, so a call is two atomic steps, its admission and its outcome, and calls interleave.
use multi_agent_rag_local.Orchestration.Timeout.{raised, returned, Outcome, Completion}
use multi_agent_rag_local.OrderedDict.{insert, OrderedDict, lookup}
use multi_agent_rag_local.Common.{
  ℕ, ◌+◌, ◌*◌, max, String, Bool, not, Option, none, some, ltb, leb, nat_eq, if◌then◌else◌,
  or_default,
}
pub mod Opening

pub record BreakerState : Type 0 where
  pub fails : ℕ
  pub opened_until : ℕ

-- `_BREAKERS`
abbrev pub Breakers : Type 0
Breakers = OrderedDict BreakerState

-- The settings that the code reads, as natural numbers.
pub record BreakerSettings : Type 0 where
  pub circuit_breaker_enabled : Bool
  pub circuit_breaker_fail_threshold : ℕ
  pub circuit_breaker_cooldown_seconds : ℕ

abbrev pub closed : BreakerState
closed = record { fails = 0; opened_until = 0 }

-- `int(setting or default)`: 0 is falsy.
abbrev pub or_setting : ℕ → ℕ → ℕ
or_setting setting default = if nat_eq setting 0 then default else setting

abbrev pub threshold : BreakerSettings → ℕ
threshold settings = or_setting settings.circuit_breaker_fail_threshold 5

-- `max(1, cooldown)` seconds, in microseconds.
abbrev pub cooldown : BreakerSettings → ℕ
cooldown settings = max 1 (or_setting settings.circuit_breaker_cooldown_seconds 60) * 1_000_000

-- `setdefault`
unfoldable pub with_default : String → Breakers → Breakers
with_default name breakers = elim (lookup name breakers) [
  | none ↦ insert name closed breakers
  | some _ ↦ breakers
]

abbrev pub state_of : String → Breakers → BreakerState
state_of name breakers = or_default closed (lookup name breakers)

-- The check under the lock: whether the function may run, and the breakers with the entry in place.
unfoldable pub admit : String → (now : ℕ) → Breakers → Bool × Breakers
unfolding with_default
admit name now breakers =
    (not (ltb now (state_of name breakers).opened_until), with_default name breakers)

unfoldable pub on_success : String → Breakers → Breakers
on_success name breakers = elim (lookup name breakers) [
  | none ↦ breakers
  | some state ↦ insert name closed breakers
]

unfoldable pub failed_state : BreakerSettings → ℕ → BreakerState → BreakerState
failed_state settings now state =
    if leb (threshold settings) (state.fails + 1)
    then record { fails = 0; opened_until = now + cooldown settings }
    else record state { fails = state.fails + 1 }

unfoldable pub on_failure : BreakerSettings → String → (now : ℕ) → Breakers → Breakers
unfolding failed_state
on_failure settings name now breakers = elim (lookup name breakers) [
  | none ↦ breakers
  | some state ↦ insert name (failed_state settings now state) breakers
]

-- A whole call with nothing in between. `fn` is its outcome and its clock at the end; `none` is
-- `CircuitBreakerOpenError`.
unfoldable pub call_with_circuit_breaker {ℓ} :
    {A : Type ℓ}
    → BreakerSettings
    → String
    → (now : ℕ) → Completion A
    → Breakers
    → Option (Outcome A) × Breakers
unfolding admit on_success on_failure
call_with_circuit_breaker settings name now fn breakers =
    let (may_run, admitted) = admit name now breakers in
    if settings.circuit_breaker_enabled
    then (if may_run
        then (
          some fn.outcome,
          elim fn.outcome [
            | returned a ↦ on_success name admitted
            | raised e ↦ on_failure settings name (now + fn.duration) admitted
          ],
        )
        else (none, admitted))
    else (some fn.outcome, breakers)
