-- ===== src/Orchestration/Nodes/Retry.antt =====
-- nodes.py: who changes the retry counter, and when the verifier asks for another round.
use multi_agent_rag_local.Common.{
  ◌+◌, ◌≤◌, String, ◌≢◌, Option, none, some, List, ℕ, ◌<◌, ◌≡◌, refl, Bool, true, false, arith,
}
use multi_agent_rag_local.Domain.{
  EvidenceBundle, RouteDecision, CandidateAnswer, ToolResult, ContextBundle, OrchestrationRequest,
  VerificationDecision,
}
use multi_agent_rag_local.Orchestration.Post.{
  Ensures, AnyError, Ensures-pure, Ensures-then, Ensures-read, Ensures-world, Ensures-if,
}
use multi_agent_rag_local.Orchestration.Stage.{ExecutionEvent, Call}
use multi_agent_rag_local.Orchestration.Services.{Services, Runtime, retry_limit}
use multi_agent_rag_local.Orchestration.Nodes.State.{GraphState}
use multi_agent_rag_local.Orchestration.Nodes.Entry.{
  planner_node, knowledge_node, privacy_permission_node, router_node, planner_node, knowledge_node,
}
use multi_agent_rag_local.Orchestration.Nodes.Answer.{
  affordable_retry, bound_retry, wants_retry, synthesizer_node, synthesis, verifier_node, conclude,
  next_round,
}
use multi_agent_rag_local.Orchestration.Nodes.Output.{output_filter_node}

-- A decision to retry has passed both tests: the counter is below the limit and the time suffices.
pub bound_retry-wants :
    (limit retry_count : ℕ) (affordable : Bool) (d : VerificationDecision)
    → wants_retry (bound_retry limit retry_count affordable d) ≡ true
    → (retry_count < limit) × (affordable ≡ true) × (bound_retry limit retry_count affordable d ≡ d)
unfolding bound_retry
bound_retry-wants limit retry_count affordable d h = ground arith

-- A reply that asks for no retry is passed on unchanged.
pub bound_retry-keeps :
    (limit retry_count : ℕ) (affordable : Bool) (d : VerificationDecision)
    → wants_retry d ≡ false
    → bound_retry limit retry_count affordable d ≡ d
unfolding bound_retry
bound_retry-keeps limit retry_count affordable d h = ground arith

-- What every node but the first and the verifier leaves alone.
pub record Same (s s' : GraphState) : Type 0 where
  pub count : s'.retry_count ≡ s.retry_count
  pub scope : s'.permission_scope ≡ s.permission_scope
  pub request : s'.request ≡ s.request

Same-fields :
    (s s' : GraphState)
    → s'.retry_count ≡ s.retry_count
    → s'.permission_scope ≡ s.permission_scope
    → s'.request ≡ s.request
    → Same s s'
Same-fields s s' a b c = record { count = a; scope = b; request = c }

pub privacy_permission-count :
    (svc : Services) (s : GraphState)
    → Ensures (λ s'. s'.retry_count ≡ s.retry_count) AnyError (privacy_permission_node svc s)
unfolding privacy_permission_node
privacy_permission-count svc s = Ensures-then _ _ (λ r. Ensures-pure _ refl)

pub router-Same :
    (rt : Runtime) (svc : Services) (s : GraphState)
    → Ensures (Same s) AnyError (router_node rt svc s)
unfolding router_node
router-Same rt svc s =
    Ensures-then _ _ (λ r. Ensures-then _ _ (λ _. Ensures-pure _ (Same-fields s _ refl refl refl)))

pub planner-Same :
    (svc : Services) (s : GraphState) → Ensures (Same s) AnyError (planner_node svc s)
unfolding planner_node
planner-Same svc s =
    Ensures-read _ _ _
      (λ route _. Ensures-then _ _ (λ r. Ensures-pure _ (Same-fields s _ refl refl refl)))

pub knowledge-Same :
    (rt : Runtime) (svc : Services) (s : GraphState)
    → Ensures (Same s) AnyError (knowledge_node rt svc s)
unfolding knowledge_node
knowledge-Same rt svc s = Ensures-read _ _ _ λ route _. Ensures-read _ _ _ λ decision _.
    Ensures-then _ _ λ strategy. Ensures-then _ _ λ scope.
      Ensures-then _ _
        λ context. Ensures-then _ _ λ tools. Ensures-pure _ (Same-fields s _ refl refl refl)

synthesis-Same :
    (o : Option
      (OrchestrationRequest → ContextBundle → List ToolResult → String → Call CandidateAnswer))
    (svc : Services) (context : ContextBundle) (s : GraphState)
    → Ensures (Same s) AnyError (synthesis o svc context s)
unfolding synthesis
synthesis-Same none svc context s = Ensures-read _ _ _ λ route _.
    Ensures-read _ _ _
      λ evidence _. Ensures-then _ _ λ r. Ensures-pure _ (Same-fields s _ refl refl refl)
synthesis-Same (some f) svc context s =
    Ensures-then _ _ λ r. Ensures-pure _ (Same-fields s _ refl refl refl)

pub synthesizer-Same :
    (svc : Services) (s : GraphState) → Ensures (Same s) AnyError (synthesizer_node svc s)
unfolding synthesizer_node
synthesizer-Same svc s =
    Ensures-read _ _ _ (λ context _. synthesis-Same svc.candidate_synthesizer svc context s)

pub output_filter-Same :
    (svc : Services) (s : GraphState) → Ensures (Same s) AnyError (output_filter_node svc s)
unfolding output_filter_node
output_filter-Same svc s = Ensures-read _ _ _ λ answer _.
    Ensures-read _ _ _
      λ evidence _. Ensures-then _ _ λ r. Ensures-pure _ (Same-fields s _ refl refl refl)

-- What the verifier leaves: a stored decision that asks for a retry, with the counter one higher and
-- within the limit and the answer as it was, or a final answer under a stored decision that asks for
-- none.
pub data Verified (limit : ℕ) (s s' : GraphState) : Type 0 where
  again :
      {d : VerificationDecision}
      → s'.retry_count ≡ s.retry_count + 1
      → s'.retry_count ≤ limit
      → s'.verification ≡ some d
      → wants_retry d ≡ true
      → s'.final_answer ≡ s.final_answer
      → s'.permission_scope ≡ s.permission_scope
      → s'.request ≡ s.request
      → Verified limit s s'
  concluded :
      {d : VerificationDecision}
      → s'.retry_count ≡ s.retry_count
      → s'.verification ≡ some d
      → wants_retry d ≡ false
      → s'.final_answer ≢ none
      → s'.permission_scope ≡ s.permission_scope
      → s'.request ≡ s.request
      → Verified limit s s'

some-ne-none : {A : Type 0} (a : A) → some a ≢ none
some-ne-none a e = cc

conclude-Verified :
    (limit : ℕ) (rt : Runtime) (svc : Services) (s : GraphState) (route : RouteDecision)
    (evidence : EvidenceBundle) (candidate : CandidateAnswer) (d : VerificationDecision)
    (event : ExecutionEvent)
    → wants_retry d ≡ false
    → Ensures (Verified limit s) AnyError (conclude rt svc s route evidence candidate d event)
unfolding conclude
conclude-Verified limit rt svc s route evidence candidate d event stop = Ensures-then _ _ λ _.
    Ensures-then _ _ λ r. Ensures-pure _ (concluded refl refl stop (some-ne-none r.0) refl refl)

next_round-Verified :
    (limit : ℕ) (affordable : Bool) (s : GraphState) (d : VerificationDecision)
    (event : ExecutionEvent)
    → let d' = bound_retry limit s.retry_count affordable d in
      wants_retry d' ≡ true → Verified limit s (next_round s d' event)
unfolding next_round
next_round-Verified limit affordable s d event more =
    again refl (omega (arith, (bound_retry-wants limit s.retry_count affordable d more).0)) refl
      more refl refl refl

-- The verifier stores a decision that asks for a retry, with the counter one higher and within the
-- limit, or a final answer and a decision that asks for none.
pub verifier-Verified :
    (rt : Runtime) (svc : Services) (s : GraphState)
    → Ensures (Verified (retry_limit rt) s) AnyError (verifier_node rt svc s)
unfolding verifier_node
verifier-Verified rt svc s = Ensures-read _ _ _ λ evidence _. Ensures-read _ _ _ λ route _.
    Ensures-read _ _ _ λ context _. Ensures-read _ _ _ λ candidate _. Ensures-then _ _ λ r.
      Ensures-world _ λ w.
        let affordable = affordable_retry w in
        let d = bound_retry (retry_limit rt) s.retry_count affordable r.0 in
        Ensures-if (wants_retry d) _ _
          (λ more. Ensures-pure _ (next_round-Verified (retry_limit rt) affordable s r.0 r.1 more))
          (λ stop. conclude-Verified (retry_limit rt) rt svc s route evidence candidate d r.1 stop)
