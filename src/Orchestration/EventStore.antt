-- ===== src/Orchestration/EventStore.antt =====
-- app/orchestration/execution_events.py: the events of an execution, in order, for its readers.
use multi_agent_rag_local.OrderedDict.{move_to_end, insert, pop_oldest, OrderedDict, lookup}
use multi_agent_rag_local.Common.{
  ℕ, String, none, some, List, [], ◌∷◌, ◌++◌, ltb, if◌then◌else◌, or_default, length, drop,
}
pub mod Delivery

pub record ExecutionEventStore {ℓ} (E : Type ℓ) : Type ℓ where
  pub events : OrderedDict (List E)
  pub max_executions : ℕ
  pub max_events_per_execution : ℕ

module _ {ℓ} {E : Type ℓ} where
  -- `ExecutionEventStore()` with its defaults.
  unfoldable pub new_store : ExecutionEventStore E
  new_store = record { events = []; max_executions = 512; max_events_per_execution = 200 }

  -- `events` is the list object in the dict: appending to it shows there, unless the eviction has
  -- just popped it.
  unfoldable pub append_to : ℕ → String → E → OrderedDict (List E) → OrderedDict (List E)
  append_to limit execution_id event d = elim (lookup execution_id d) [
    | none ↦ d
    | some events ↦
        if ltb (length events) limit then insert execution_id (events ++ event ∷ []) d else d
  ]

  -- The entry is made, and old ones evicted, or it becomes the newest.
  unfoldable pub touch : ℕ → String → OrderedDict (List E) → OrderedDict (List E)
  touch max_executions execution_id d = elim (lookup execution_id d) [
    | none ↦ pop_oldest max_executions (insert execution_id [] d)
    | some _ ↦ move_to_end execution_id d
  ]

  unfoldable pub publish : String → E → ExecutionEventStore E → ExecutionEventStore E
  unfolding append_to touch
  publish execution_id event s = record s {
    events =
        append_to s.max_events_per_execution execution_id event
          (touch s.max_executions execution_id s.events);
  }

  -- `[offset:]`, for an offset that is not negative.
  unfoldable pub events_since : String → ℕ → ExecutionEventStore E → List E
  events_since execution_id offset s = drop offset (or_default [] (lookup execution_id s.events))
