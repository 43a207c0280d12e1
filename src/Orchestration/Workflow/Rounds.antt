-- ===== src/Orchestration/Workflow/Rounds.antt =====
-- The verifier and the edge behind it: another round, or on to the output filter.
use mathlib.Core.Option.{some-injective}
use multi_agent_rag_local.Orchestration.Workflow.Bounded.{step-Ensures}
use multi_agent_rag_local.Orchestration.Post.{
  Ensures-pure, Ensures-read, Ensures-bind, AnyError, Ensures,
}
use multi_agent_rag_local.Orchestration.Services.{retry_limit, Services, Runtime}
use multi_agent_rag_local.Orchestration.Workflow.{step, after_verifier, Node, next, visit}
use multi_agent_rag_local.Domain.{VerificationDecision}
use multi_agent_rag_local.Orchestration.Nodes.{wants_retry, GraphState}
use multi_agent_rag_local.Common.{
  ℕ, ◌+◌, ◌≤◌, ◌≡◌, sym, ◌∙◌, ◌≢◌, true, false, ◌&&◌, Option, none, some, arith, ltb, leb,
  if◌then◌else◌,
}
use multi_agent_rag_local.Orchestration.Nodes.Retry.{again, concluded, verifier-Verified, Verified}

-- What a step from the verifier leads to.
pub data Decided (limit : ℕ) (s : GraphState) : GraphState × Option Node → Type 0 where
  another_round :
      {s' : GraphState} {d : VerificationDecision}
      → s'.verification ≡ some d
      → wants_retry d ≡ true
      → s'.retry_count ≡ s.retry_count + 1
      → s'.retry_count ≤ limit
      → s'.final_answer ≡ s.final_answer
      → Decided limit s (s', some Node.knowledge)
  to_filter :
      {s' : GraphState} {d : VerificationDecision}
      → s'.verification ≡ some d
      → wants_retry d ≡ false
      → s'.retry_count ≡ s.retry_count
      → s'.final_answer ≢ none
      → Decided limit s (s', some Node.output_filter)

-- The edge that `after_verifier` takes under a stored decision.
abbrev edge : ℕ → VerificationDecision → ℕ → Node
edge limit d count =
    if wants_retry d && (ltb 0 count && leb count limit) then Node.knowledge else Node.output_filter

decide :
    (limit : ℕ) (s s' : GraphState) (d : VerificationDecision)
    → Verified limit s s'
    → s'.verification ≡ some d
    → Decided limit s (s', some (edge limit d s'.retry_count))
decide limit s s' d (again {d = d'} e le own more kept _ _) found =
    let same : d' ≡ d = some-injective d' d (sym own ∙ found) in
    let wants : wants_retry d ≡ true = rw same at more in
    let room : (ltb 0 s'.retry_count && leb s'.retry_count limit) ≡ true = ground (arith, e, le) in
    rw (wants, room) (another_round found wants e le kept)
decide limit s s' d (concluded {d = d'} e own stop final _ _) found =
    let same : d' ≡ d = some-injective d' d (sym own ∙ found) in
    let none_wanted : wants_retry d ≡ false = rw same at stop in
    rw none_wanted (to_filter found none_wanted e final)

-- A step from the verifier either goes back to the knowledge node, with a stored decision that asks for
-- a retry, the counter one higher and within the limit, and no new answer; or it goes on to the output
-- filter with a final answer, a stored decision that asks for no retry, and the counter as it was.
pub step-Decided :
    (rt : Runtime) (svc : Services) (s : GraphState)
    → Ensures (Decided (retry_limit rt) s) AnyError (step rt svc Node.verifier s)
unfolding visit next after_verifier
step-Decided rt svc s =
    step-Ensures rt svc _ s (Verified (retry_limit rt) s) (verifier-Verified rt svc s) λ s' v.
      Ensures-bind (λ (n : Node). Decided (retry_limit rt) s (s', some n)) _ _
        (Ensures-read _ _ _ λ d found. Ensures-pure _ (decide (retry_limit rt) s s' d v found))
        λ n h. Ensures-pure _ h
