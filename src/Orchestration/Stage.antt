-- ===== src/Orchestration/Stage.antt =====
-- app/orchestration/langgraph/nodes.py, `_run_stage`: one stage under its ceiling, with the events
-- that it reports, as an action on what a run shares.
pub mod Errors
pub mod Results
use multi_agent_rag_local.Common.{
  Bool, ℕ, String, Option, none, some, List, [], ◌∷◌, ◌++◌, or_default,
}
use multi_agent_rag_local.OrderedDict.{lookup}
use multi_agent_rag_local.Domain.{EventStatus, completed, failed}
use multi_agent_rag_local.Orchestration.Timeout.{
  Stage, stage_name, Error, stage_timeout, stage_execution, type_error, Result, ok, err,
  ExecutionBudget, Operation, run_with_timeout,
}

pub record ExecutionEvent : Type 0 where
  pub stage : Stage
  pub status : EventStatus
  pub duration_ms : ℕ
  pub failure_reason : Option String

-- The clock, the budget that every stage writes into, the events given to the reporter, and the
-- outcomes given to the router's calibration.
pub record World : Type 0 where
  pub clock : ℕ
  pub budget : ExecutionBudget
  pub reported : List ExecutionEvent
  pub feedback : List (ℕ × Bool)

abbrev pub Run {ℓ} : Type ℓ → Type ℓ
Run A = World → Result A × World

module _ {ℓ} {A : Type ℓ} where
  unfoldable pub pure : A → Run A
  pure a w = (ok a, w)

  unfoldable pub raise : Error → Run A
  raise e w = (err e, w)

  unfoldable pub lift : Result A → Run A
  lift r w = (r, w)

  -- `_required`: a state key that is missing.
  unfoldable pub required : String → Option A → Run A
  unfolding pure raise
  required key none = raise (stage_execution key (type_error key))
  required key (some a) = pure a

  -- An action that looks at what the run shares, such as the clock.
  unfoldable pub read_world : (World → Run A) → Run A
  read_world f w = f w w

module _ {ℓ κ} {A : Type ℓ} {B : Type κ} where
  infixl 5 ◌>>=◌
  -- Opening this opens the actions above too.
  unfoldable pub ◌>>=◌ : Run A → (A → Run B) → Run B
  unfolding pure raise lift required read_world
  ◌>>=◌ m f w = let (r, w') = m w in elim r [ ok a ↦ f a w' | err e ↦ (err e, w') ]

-- An operation of a stage: `none` is a value that fails the stage's type check or validator.
abbrev pub Call {ℓ} : Type ℓ → Type ℓ
Call A = Operation (Option A)

module _ {ℓ} {A : Type ℓ} where
  report : A → ExecutionEvent → Run (A × ExecutionEvent)
  report a event w = (ok (a, event), record w { reported = w.reported ++ event ∷ [] })

  -- `exc` is in the clauses what `run_with_timeout` raised. The stage continues with the value of
  -- `on_timeout` after a timeout, if it has one.
  settle : Stage → Stage → Option A → Result (Option A) → Run (A × ExecutionEvent)
  unfolding report raise
  settle event_stage timeout_stage none (err (stage_timeout s t e)) = raise (stage_timeout s t e)
  settle event_stage timeout_stage (some fallback) (err (stage_timeout s t e)) = λ w.
      report fallback
        (record {
          stage = event_stage;
          status = failed;
          duration_ms = or_default e (lookup (stage_name timeout_stage) w.budget.stage_times);
          failure_reason = some (stage_name event_stage);
        })
        w
  settle event_stage timeout_stage on_timeout (err e) = raise e
  settle event_stage timeout_stage on_timeout (ok none) =
      raise (stage_execution (stage_name event_stage) (type_error "unexpected result type"))
  settle event_stage timeout_stage on_timeout (ok (some a)) = λ w.
      report a
        (record {
          stage = event_stage;
          status = completed;
          duration_ms = or_default 0 (lookup (stage_name timeout_stage) w.budget.stage_times);
          failure_reason = none;
        })
        w

  unfoldable pub run_stage : Stage → Stage → Call A → Option A → Run (A × ExecutionEvent)
  unfolding settle
  run_stage event_stage timeout_stage operation on_timeout w =
      let (r, b, now) = run_with_timeout timeout_stage operation w.budget w.clock in
      settle event_stage timeout_stage on_timeout r (record w { budget = b; clock = now })
