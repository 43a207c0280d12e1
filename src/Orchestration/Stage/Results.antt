-- ===== src/Orchestration/Stage/Results.antt =====
-- `_run_stage`: where the value of a stage comes from.
use multi_agent_rag_local.Common.{ℕ, inl, inr, Option, none, some}
use multi_agent_rag_local.Orchestration.Timeout.{
  timeout_error, stage_timeout, stage_execution, recursion_error, value_error, type_error,
  permission_error, runtime_error, Stage, Result, ok, err, Outcome, returned, raised, translate,
  run_with_timeout, run_stage_body, Operation, ExecutionBudget,
}
use multi_agent_rag_local.Orchestration.Timeout.Bounds.{check_budget-cases}
use multi_agent_rag_local.Orchestration.Stage.{
  type_error, stage_execution, World, Call, run_stage, settle,
}
use multi_agent_rag_local.Orchestration.Post.{Ensures, Meets, AnyError}

abbrev pub OfValue {ℓ} : {A : Type ℓ} → (A → Type 0) → Result A → Type 0
OfValue Q (ok a) = Q a
OfValue Q (err e) = Unit

abbrev pub OfOption {ℓ} : {A : Type ℓ} → (A → Type 0) → Option A → Type 0
OfOption Q none = Unit
OfOption Q (some a) = Q a

abbrev pub OfOutcome {ℓ} : {A : Type ℓ} → (A → Type 0) → Outcome A → Type 0
OfOutcome Q (returned a) = Q a
OfOutcome Q (raised e) = Unit

module _ {ℓ} {A : Type ℓ} (Q : A → Type 0) where
  translate-OfValue :
      (stage : Stage) (t elapsed : ℕ) (o : Outcome A)
      → OfOutcome Q o
      → OfValue Q (translate stage t elapsed o)
  translate-OfValue stage t elapsed (returned a) h = h
  translate-OfValue stage t elapsed (raised timeout_error) h = tt
  translate-OfValue stage t elapsed (raised (stage_timeout _ _ _)) h = tt
  translate-OfValue stage t elapsed (raised (stage_execution _ _)) h = tt
  translate-OfValue stage t elapsed (raised recursion_error) h = tt
  translate-OfValue stage t elapsed (raised (value_error _)) h = tt
  translate-OfValue stage t elapsed (raised (type_error _)) h = tt
  translate-OfValue stage t elapsed (raised (permission_error _)) h = tt
  translate-OfValue stage t elapsed (raised (runtime_error _)) h = tt

  run_with_timeout-OfValue :
      (stage : Stage) (operation : Operation A) (b : ExecutionBudget) (now : ℕ)
      → ((t : ℕ) → OfOutcome Q (operation t).outcome)
      → OfValue Q (run_with_timeout stage operation b now).0
  unfolding run_with_timeout run_stage_body
  run_with_timeout-OfValue stage operation b now h = elim (check_budget-cases stage b now) [
    | inl pass ↦ rw (pass, run_with_timeout) (translate-OfValue stage _ _ _ (h _))
    | inr (_, _, stop) ↦ rw (stop, run_with_timeout) tt
  ]

module _ {ℓ} {A : Type ℓ} (Q : A → Type 0) where
  settle-Meets :
      (a b : Stage) (fallback : Option A) (r : Result (Option A)) (w : World)
      → OfValue (OfOption Q) r
      → OfOption Q fallback
      → Meets (λ p. Q p.0) AnyError (settle a b fallback r w).0
  unfolding settle
  settle-Meets a b none (ok none) w h k = tt
  settle-Meets a b (some _) (ok none) w h k = tt
  settle-Meets a b none (ok (some x)) w h k = h
  settle-Meets a b (some _) (ok (some x)) w h k = h
  settle-Meets a b none (err (stage_timeout s t e)) w h k = tt
  settle-Meets a b (some _) (err (stage_timeout s t e)) w h k = k
  settle-Meets a b none (err _) w h k = tt
  settle-Meets a b (some _) (err _) w h k = tt

  -- What holds of every value that the operation returns, and of the value to degrade to, holds of
  -- the value that the run goes on with.
  pub run_stage-Ensures :
      (a b : Stage) (operation : Call A) (fallback : Option A)
      → ((t : ℕ) → OfOutcome (OfOption Q) (operation t).outcome)
      → OfOption Q fallback
      → Ensures (λ p. Q p.0) AnyError (run_stage a b operation fallback)
  unfolding run_stage
  run_stage-Ensures a b operation fallback h k = record {
    at = λ w.
        settle-Meets a b fallback (run_with_timeout b operation w.budget w.clock).0 _
          (run_with_timeout-OfValue (OfOption Q) b operation w.budget w.clock h) k;
  }
