-- ===== src/Orchestration/Nodes/Errors.antt =====
-- nodes.py: what each node can raise.
use multi_agent_rag_local.Common.{
  not, List, is_some, ℕ, String, refl, inl, inr, Bool, true, false, Option, none, some,
  if◌then◌else◌, Bool-cases, contains,
}
use multi_agent_rag_local.Domain.{
  ToolResult, VerificationDecision, CandidateAnswer, ContextBundle, FinalAnswer, EvidenceBundle,
  TaskPlan, effective_route, AccessScope, OrchestrationRequest, RouteDecision,
}
use multi_agent_rag_local.Orchestration.Timeout.{Stage}
use multi_agent_rag_local.Orchestration.Policy.{validate_route, ExecutionPolicy}
use multi_agent_rag_local.Orchestration.Stage.{
  ExecutionEvent, lift, Run, Call, run_stage, ◌>>=◌, required, pure,
}
use multi_agent_rag_local.Orchestration.Stage.Errors.{Clean, run_stage-Allowed}
use multi_agent_rag_local.Orchestration.Post.{
  Ensures-world, Anything, Ensures-pure, Ensures-bind, Ensures-raise, Ensures-lift,
  Ensures-required, Ensures-if,
}
use multi_agent_rag_local.Orchestration.Services.{Services, Runtime}
use multi_agent_rag_local.Orchestration.Nodes.State.{GraphState}
use multi_agent_rag_local.Orchestration.Nodes.Entry.{
  privacy_permission_node, router_node, planner_node, knowledge_node, run_tools, require_scope,
}
use multi_agent_rag_local.Orchestration.Nodes.Answer.{
  legacy_synthesis, conclude, finalize_by, synthesis, synthesizer_node, verifier_node,
  record_feedback,
}
use multi_agent_rag_local.Orchestration.Nodes.Output.{output_filter_node}

-- The rules for an action of which only the errors matter.
module _ {ℓ} {A : Type ℓ} {timeouts : Bool} where
  pub Clean-pure : (a : A) → Clean timeouts (pure a)
  Clean-pure a = Ensures-pure a tt

  pub Clean-required : (key : String) (o : Option A) → Clean timeouts (required key o)
  Clean-required key o = Ensures-required key o (λ _ _. tt) refl

  Clean-if :
      (b : Bool) (m n : Run A)
      → Clean timeouts m
      → Clean timeouts n
      → Clean timeouts (if b then m else n)
  Clean-if b m n h k = Ensures-if b m n (λ _. h) (λ _. k)

module _ {ℓ κ} {A : Type ℓ} {B : Type κ} {timeouts : Bool} where
  pub Clean-bind :
      (m : Run A) (f : A → Run B)
      → Clean timeouts m
      → ((a : A) → Clean timeouts (f a))
      → Clean timeouts (m >>= f)
  Clean-bind m f h k = Ensures-bind Anything m f h (λ a _. k a)

module _ {ℓ} {A : Type ℓ} where
  -- A stage that degrades is clean of timeouts, and any stage is clean up to them.
  Clean-degrading :
      (a b : Stage) (operation : Call A) (x : A) → Clean false (run_stage a b operation (some x))
  Clean-degrading a b operation x = run_stage-Allowed a b operation (some x)

  Clean-strict : (a b : Stage) (operation : Call A) → Clean true (run_stage a b operation none)
  Clean-strict a b operation = run_stage-Allowed a b operation none

Clean-validate_route :
    (p : ExecutionPolicy) (r : RouteDecision) → Clean false (lift (validate_route p r))
unfolding validate_route
Clean-validate_route p r =
    Ensures-lift _ (elim (Bool-cases (contains (effective_route r) p.allowed_routes)) [
      | inl e ↦ rw (e, validate_route) tt
      | inr e ↦ rw (e, validate_route) refl
    ])

Clean-require_scope : (o : Option AccessScope) → Clean false (require_scope o)
Clean-require_scope none = Ensures-raise _ refl
Clean-require_scope (some scope) = Ensures-pure _ tt

Clean-record_feedback : (o : Option (ℕ × Bool)) → Clean false (record_feedback o)
Clean-record_feedback none = record { at = λ w. tt }
Clean-record_feedback (some f) = record { at = λ w. tt }

ruleset clean = (
  Clean-pure, Clean-required, Clean-bind, Clean-degrading, Clean-strict, Clean-validate_route,
  Clean-require_scope, Clean-record_feedback,
)

Clean-run_tools :
    (svc : Services) (request : OrchestrationRequest) (route : RouteDecision)
    (plan : Option TaskPlan) (b : Bool)
    → Clean false (run_tools svc request route plan b)
unfolding run_tools
Clean-run_tools svc request route none true = search clean
Clean-run_tools svc request route none false = search clean
Clean-run_tools svc request route (some plan) true = search clean
Clean-run_tools svc request route (some plan) false = search clean

pub router-Clean :
    (rt : Runtime) (svc : Services) (s : GraphState) → Clean false (router_node rt svc s)
unfolding router_node
router-Clean rt svc s = search clean depth 9

pub planner-Clean : (svc : Services) (s : GraphState) → Clean false (planner_node svc s)
unfolding planner_node
planner-Clean svc s = search clean depth 9

pub knowledge-Clean :
    (rt : Runtime) (svc : Services) (s : GraphState) → Clean false (knowledge_node rt svc s)
unfolding knowledge_node
knowledge-Clean rt svc s = search (clean, Clean-run_tools) depth 14

pub privacy_permission-Clean :
    (svc : Services) (s : GraphState) → Clean true (privacy_permission_node svc s)
unfolding privacy_permission_node
privacy_permission-Clean svc s = search clean

-- The synthesizer degrades only where there is a candidate synthesizer.
synthesis-Clean :
    (o : Option
      (OrchestrationRequest → ContextBundle → List ToolResult → String → Call CandidateAnswer))
    (svc : Services) (context : ContextBundle) (s : GraphState)
    → Clean (not (is_some o)) (synthesis o svc context s)
unfolding synthesis legacy_synthesis
synthesis-Clean none svc context s = search clean depth 9
synthesis-Clean (some f) svc context s = search clean depth 9

pub synthesizer-Clean :
    (svc : Services) (s : GraphState)
    → Clean (not (is_some svc.candidate_synthesizer)) (synthesizer_node svc s)
unfolding synthesizer_node
synthesizer-Clean svc s =
    Clean-bind _ _ (Clean-required _ _)
      (λ context. synthesis-Clean svc.candidate_synthesizer svc context s)

Clean-finalize_by :
    (o : Option
      (OrchestrationRequest → EvidenceBundle → FinalAnswer → ExecutionPolicy → Call FinalAnswer))
    (rt : Runtime) (request : OrchestrationRequest) (evidence : EvidenceBundle) (base : FinalAnswer)
    → Clean false (finalize_by o rt request evidence base)
unfolding finalize_by
Clean-finalize_by none rt request evidence base = search clean
Clean-finalize_by (some f) rt request evidence base = search clean

Clean-conclude :
    (rt : Runtime) (svc : Services) (s : GraphState) (route : RouteDecision)
    (evidence : EvidenceBundle) (candidate : CandidateAnswer) (d : VerificationDecision)
    (event : ExecutionEvent)
    → Clean false (conclude rt svc s route evidence candidate d event)
unfolding conclude
Clean-conclude rt svc s route evidence candidate d event = search (clean, Clean-finalize_by) depth 9

pub verifier-Clean :
    (rt : Runtime) (svc : Services) (s : GraphState) → Clean false (verifier_node rt svc s)
unfolding verifier_node
verifier-Clean rt svc s = Clean-bind _ _ (Clean-required _ _) λ evidence.
    Clean-bind _ _ (Clean-required _ _) λ route. Clean-bind _ _ (Clean-required _ _) λ context.
      Clean-bind _ _ (Clean-required _ _) λ candidate. Clean-bind _ _ (Clean-degrading _ _ _ _) λ r.
        Ensures-world _ λ w.
          Clean-if _ _ _ (Clean-pure _) (Clean-conclude rt svc s route evidence candidate _ r.1)

pub output_filter-Clean : (svc : Services) (s : GraphState) → Clean true (output_filter_node svc s)
unfolding output_filter_node
output_filter-Clean svc s = Clean-bind _ _ (Clean-required _ _) λ answer.
    Clean-bind _ _ (Clean-required _ _)
      λ evidence. Clean-bind _ _ (Ensures-world _ λ w. Clean-strict _ _ _) λ r. Clean-pure _
