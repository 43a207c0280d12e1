-- ===== src/Orchestration/Stage/Errors.antt =====
-- `_run_stage`: what a stage can raise.
use multi_agent_rag_local.Common.{
  ℕ, ◌≡◌, refl, inl, inr, Bool, true, false, not, Option, none, some, is_some,
}
use multi_agent_rag_local.Orchestration.Timeout.{
  Stage, Error, stage_timeout, stage_execution, timeout_error, recursion_error, value_error,
  type_error, permission_error, runtime_error, Result, ok, err, Outcome, returned, raised,
  translate, run_with_timeout, run_stage_body, Operation, ExecutionBudget,
}
use multi_agent_rag_local.Orchestration.Timeout.Bounds.{check_budget-cases}
use multi_agent_rag_local.Orchestration.Stage.{World, Run, Call, run_stage, settle}
use multi_agent_rag_local.Orchestration.Post.{Ensures, Anything, Meets}

-- A failure of a stage or an unsupported route; a timeout only if `timeouts` says so.
abbrev pub allowed : Bool → Error → Bool
allowed timeouts (stage_execution _ _) = true
allowed timeouts (value_error _) = true
allowed timeouts (stage_timeout _ _ _) = timeouts
allowed timeouts _ = false

abbrev pub Allowed : Bool → Error → Type 0
Allowed timeouts e = allowed timeouts e ≡ true

abbrev pub Clean {ℓ} : {A : Type ℓ} → Bool → Run A → Type ℓ
Clean timeouts m = Ensures Anything (Allowed timeouts) m

-- What a stage's runner raises is a timeout or a failure of the stage.
abbrev StageError {ℓ} : {A : Type ℓ} → Result A → Type 0
StageError (ok _) = Unit
StageError (err e) = allowed true e ≡ true

module _ {ℓ} {A : Type ℓ} where
  translate-StageError :
      (stage : Stage) (t elapsed : ℕ) (o : Outcome A) → StageError (translate stage t elapsed o)
  translate-StageError stage t elapsed (returned a) = tt
  translate-StageError stage t elapsed (raised timeout_error) = refl
  translate-StageError stage t elapsed (raised (stage_timeout s x y)) = refl
  translate-StageError stage t elapsed (raised (stage_execution s e)) = refl
  translate-StageError stage t elapsed (raised recursion_error) = refl
  translate-StageError stage t elapsed (raised (value_error s)) = refl
  translate-StageError stage t elapsed (raised (type_error s)) = refl
  translate-StageError stage t elapsed (raised (permission_error s)) = refl
  translate-StageError stage t elapsed (raised (runtime_error s)) = refl

  run_with_timeout-StageError :
      (stage : Stage) (operation : Operation A) (b : ExecutionBudget) (now : ℕ)
      → StageError (run_with_timeout stage operation b now).0
  unfolding run_with_timeout run_stage_body
  run_with_timeout-StageError stage operation b now = elim (check_budget-cases stage b now) [
    | inl pass ↦ rw (pass, run_with_timeout) (translate-StageError stage _ _ _)
    | inr (_, _, stop) ↦ rw (stop, run_with_timeout) refl
  ]

module _ {ℓ} {A : Type ℓ} where
  settle-Allowed :
      (a b : Stage) (fallback : Option A) (r : Result (Option A)) (w : World)
      → StageError r
      → Meets Anything (Allowed (not (is_some fallback))) (settle a b fallback r w).0
  unfolding settle
  settle-Allowed a b none (ok none) w h = refl
  settle-Allowed a b (some _) (ok none) w h = refl
  settle-Allowed a b none (ok (some x)) w h = tt
  settle-Allowed a b (some _) (ok (some x)) w h = tt
  settle-Allowed a b none (err (stage_timeout s t e)) w h = refl
  settle-Allowed a b (some _) (err (stage_timeout s t e)) w h = tt
  settle-Allowed a b none (err (stage_execution s e)) w h = refl
  settle-Allowed a b (some _) (err (stage_execution s e)) w h = refl
  settle-Allowed a b none (err (value_error s)) w h = refl
  settle-Allowed a b (some _) (err (value_error s)) w h = refl
  settle-Allowed a b none (err timeout_error) w h = h
  settle-Allowed a b (some _) (err timeout_error) w h = h
  settle-Allowed a b none (err recursion_error) w h = h
  settle-Allowed a b (some _) (err recursion_error) w h = h
  settle-Allowed a b none (err (type_error s)) w h = h
  settle-Allowed a b (some _) (err (type_error s)) w h = h
  settle-Allowed a b none (err (permission_error s)) w h = h
  settle-Allowed a b (some _) (err (permission_error s)) w h = h
  settle-Allowed a b none (err (runtime_error s)) w h = h
  settle-Allowed a b (some _) (err (runtime_error s)) w h = h

  -- From any world, a stage with a value to degrade to raises no timeout: it ends by its result, or by
  -- a failure of the stage or an unsupported route. A stage without such a value may also time out.
  pub run_stage-Allowed :
      (a b : Stage) (operation : Call A) (fallback : Option A)
      → Clean (not (is_some fallback)) (run_stage a b operation fallback)
  unfolding run_stage
  run_stage-Allowed a b operation fallback = record {
    at = λ w.
        settle-Allowed a b fallback (run_with_timeout b operation w.budget w.clock).0 _
          (run_with_timeout-StageError b operation w.budget w.clock);
  }
