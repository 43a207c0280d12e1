-- ===== src/Query/Guard.antt =====
-- app/services/query/guard.py, the in-memory guard: the context manager `_acquire_memory`, cut at the
-- points where another thread can run. Each clause of `advance` is one action on the shared state: a
-- call of the limiter or of the semaphore, each under its own lock, or a block under `_state_lock`.
use multi_agent_rag_local.Security.RateLimiter.{
  SlidingWindowLimiter, Events, new_limiter, is_limited, record_attempt,
}
use multi_agent_rag_local.Common.{
  ◌+◌, ◌-◌, ◌*◌, max, true, false, List, [], ◌∷◌, ◌++◌, ltb, leb, if◌then◌else◌, ℤ, max_zero, ℕ,
  String, Bool,
}
pub mod Slots
pub mod Limits

pub record QueryLoadGuard : Type 0 where
  pub user_limiter : SlidingWindowLimiter
  pub max_concurrent : ℕ
  pub max_waiting : ℕ
  -- microseconds
  pub acquire_timeout : ℕ

-- `__init__`, with the backend `memory`
unfoldable pub new_guard :
    (per_user_max_requests per_user_window_seconds max_concurrent max_waiting
      acquire_timeout_ms : ℤ)
    → QueryLoadGuard
new_guard per_user_max_requests per_user_window_seconds max_concurrent max_waiting
      acquire_timeout_ms =
    record {
      user_limiter = new_limiter per_user_max_requests per_user_window_seconds;
      max_concurrent = max 1 (max_zero max_concurrent);
      max_waiting = max_zero max_waiting;
      acquire_timeout = max 1 (max_zero acquire_timeout_ms) * 1000;
    }

-- What the threads share: the limiter's events, the value of the semaphore and the two counters.
pub record Shared : Type 0 where
  pub events : Events
  pub permits : ℕ
  pub waiting : ℕ
  pub inflight : ℕ

pub data Refusal : Type 0 where
  query_rate_limited query_queue_full query_queue_timeout : Refusal

-- Where a query stands. `queued` of the source is the argument of `acquired`, and it is true in
-- `queued` and `timed_out`; `semaphore_error` is a release above the initial value.
pub data Phase : Type 0 where
  arrived checked recorded blocked queued timed_out running releasing done semaphore_error : Phase
  acquired : (was_queued : Bool) → Phase
  refused : Refusal → Phase

unfoldable pub new_shared : QueryLoadGuard → Shared
new_shared guard = record { events = []; permits = guard.max_concurrent; waiting = 0; inflight = 0 }

module _ (guard : QueryLoadGuard) where
  -- The next action of a query, at an instant; `expired` tells whether its wait for the semaphore has
  -- lasted the timeout. The counters stop at 0 as `max(0, ...)` does.
  unfoldable pub advance : (now : ℕ) → (expired : Bool) → String → Phase → Shared → Phase × Shared
  advance now expired user arrived s =
      let (limited, events) = is_limited guard.user_limiter user now s.events in
      (if limited then refused query_rate_limited else checked, record s { events = events })
  advance now expired user checked s =
      (recorded, record s { events = record_attempt guard.user_limiter user now s.events })
  advance now expired user recorded s =
      if ltb 0 s.permits
      then (acquired false, record s { permits = s.permits - 1 })
      else (blocked, s)
  advance now expired user blocked s =
      if leb guard.max_waiting s.waiting
      then (refused query_queue_full, s)
      else (queued, record s { waiting = s.waiting + 1 })
  advance now expired user queued s =
      if ltb 0 s.permits
      then (acquired true, record s { permits = s.permits - 1 })
      else (if expired then timed_out else queued, s)
  advance now expired user (acquired was_queued) s = (
    running,
    record s {
      waiting = if was_queued then s.waiting - 1 else s.waiting;
      inflight = s.inflight + 1;
    },
  )
  advance now expired user timed_out s =
      (refused query_queue_timeout, record s { waiting = s.waiting - 1 })
  advance now expired user running s = (releasing, record s { inflight = s.inflight - 1 })
  advance now expired user releasing s =
      if ltb s.permits guard.max_concurrent
      then (done, record s { permits = s.permits + 1 })
      else (semaphore_error, s)
  advance now expired user done s = (done, s)
  advance now expired user semaphore_error s = (semaphore_error, s)
  advance now expired user (refused r) s = (refused r, s)

pub record GuardStats : Type 0 where
  pub inflight : ℕ
  pub waiting : ℕ
  pub max_concurrent : ℕ
  pub max_waiting : ℕ

-- `stats`, of the backend `memory`
unfoldable pub stats : QueryLoadGuard → Shared → GuardStats
stats guard s = record {
  inflight = s.inflight;
  waiting = s.waiting;
  max_concurrent = guard.max_concurrent;
  max_waiting = guard.max_waiting;
}

abbrev pub Queries : Type 0
Queries = List (String × Phase)

-- Any interleaving: a query arrives, or one of the queries performs its next action.
pub data Reachable (guard : QueryLoadGuard) : Queries → Shared → Type 0 where
  start : Reachable guard [] (new_shared guard)
  arrive :
      (queries : Queries) (s : Shared) (user : String)
      → Reachable guard queries s
      → Reachable guard ((user, arrived) ∷ queries) s
  act :
      (before after : Queries) (user : String) (phase : Phase) (s : Shared) (now : ℕ)
      (expired : Bool)
      → Reachable guard (before ++ (user, phase) ∷ after) s
      → Reachable guard
          (before ++ (user, (advance guard now expired user phase s).0) ∷ after)
          (advance guard now expired user phase s).1
