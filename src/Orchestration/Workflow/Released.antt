-- ===== src/Orchestration/Workflow/Released.antt =====
-- workflow.py: what the answer of a run has been through.
use multi_agent_rag_local.Common.{
  ℕ, zero, suc, ◌≡◌, refl, sym, Bool, true, false, Option, none, some, if◌then◌else◌,
}
use multi_agent_rag_local.Domain.{OrchestrationRequest, NextStage}
use multi_agent_rag_local.Orchestration.Stage.{Run}
use mathlib.Core.Bool.{false≢true}
use multi_agent_rag_local.Orchestration.Post.{
  Ensures, AnyError, Ensures-pure, Ensures-bind, Ensures-read, Ensures-raise,
}
use multi_agent_rag_local.Orchestration.Services.{Services, Runtime, retry_limit}
use multi_agent_rag_local.Orchestration.Nodes.{GraphState, initial}
use multi_agent_rag_local.Orchestration.Nodes.Retry.{
  Same, Verified, again, concluded, router-Same, planner-Same, knowledge-Same, synthesizer-Same,
  verifier-Verified,
}
use multi_agent_rag_local.Orchestration.Workflow.{
  Node, visit, next, step, follow, run_from, run_workflow, after_router, after_verifier, final,
  entry_of,
}
use multi_agent_rag_local.Orchestration.Workflow.Bounded.{step-Ensures}
use multi_agent_rag_local.Orchestration.Workflow.Scoped.{
  IsGranted, HasReleased, IsReleased, carry, privacy_permission-IsGranted,
  output_filter-HasReleased,
}

abbrev is_entry : Node → Bool
is_entry Node.privacy_permission = true
is_entry _ = false

module _ (svc : ℕ → Services) (request : OrchestrationRequest) (rt : Runtime) where
  -- After a node: a released answer at the end, and a granted scope at any other node.
  abbrev Follows : GraphState × Option Node → Type 0
  Follows (s, none) = HasReleased svc request s
  Follows (s, some target) = IsGranted svc request s × (is_entry target ≡ false)

  entry_of-inner : (stage : NextStage) → is_entry (entry_of stage) ≡ false
  entry_of-inner NextStage.planner = refl
  entry_of-inner NextStage.knowledge = refl

  if-inner : (b : Bool) → is_entry (if b then Node.knowledge else Node.output_filter) ≡ false
  if-inner true = refl
  if-inner false = refl

  keeps : (s s' : GraphState) → Same s s' → IsGranted svc request s → IsGranted svc request s'
  keeps s s' same g = carry svc request s s' same.scope same.request g

  Verified-keeps :
      (limit : ℕ) (s s' : GraphState)
      → Verified limit s s'
      → IsGranted svc request s
      → IsGranted svc request s'
  Verified-keeps limit s s' (again _ _ _ _ _ e r) g = carry svc request s s' e r g
  Verified-keeps limit s s' (concluded _ _ _ _ e r) g = carry svc request s s' e r g

  step-Follows :
      (k : ℕ) (node : Node) (s : GraphState)
      → is_entry node ≡ false
      → IsGranted svc request s
      → Ensures Follows AnyError (step rt (svc k) node s)
  unfolding visit next after_router after_verifier
  step-Follows k Node.privacy_permission s h g = absurd (false≢true (sym h))
  step-Follows k Node.router s h g =
      step-Ensures rt (svc k) _ s (Same s) (router-Same rt (svc k) s) λ s' same.
        Ensures-bind (λ (n : Node). is_entry n ≡ false) _ _
          (Ensures-read _ _ _ λ d _. Ensures-pure _ (entry_of-inner d.next_stage))
          λ n e. Ensures-pure _ (keeps s s' same g, e)
  step-Follows k Node.planner s h g =
      step-Ensures rt (svc k) _ s (Same s) (planner-Same (svc k) s)
        λ s' same. Ensures-pure _ (keeps s s' same g, refl)
  step-Follows k Node.knowledge s h g =
      step-Ensures rt (svc k) _ s (Same s) (knowledge-Same rt (svc k) s)
        λ s' same. Ensures-pure _ (keeps s s' same g, refl)
  step-Follows k Node.synthesizer s h g =
      step-Ensures rt (svc k) _ s (Same s) (synthesizer-Same (svc k) s)
        λ s' same. Ensures-pure _ (keeps s s' same g, refl)
  step-Follows k Node.verifier s h g =
      step-Ensures rt (svc k) _ s (Verified (retry_limit rt) s) (verifier-Verified rt (svc k) s)
        λ s' v.
          Ensures-bind (λ (n : Node). is_entry n ≡ false) _ _
            (Ensures-read _ _ _ λ d _. Ensures-pure _ (if-inner _))
            λ n e. Ensures-pure _ (Verified-keeps (retry_limit rt) s s' v g, e)
  step-Follows k Node.output_filter s h g =
      step-Ensures rt (svc k) _ s (HasReleased svc request)
        (output_filter-HasReleased svc request k s g) λ s' r. Ensures-pure _ r

  first-Follows :
      (k : ℕ) → Ensures Follows AnyError (step rt (svc k) Node.privacy_permission (initial request))
  unfolding visit next
  first-Follows k =
      step-Ensures rt (svc k) _ (initial request) (IsGranted svc request)
        (privacy_permission-IsGranted svc request k) λ s' g. Ensures-pure _ (g, refl)

  follow-Released :
      (target : Option Node) (s : GraphState) (go : Node → GraphState → Run GraphState)
      → Follows (s, target)
      → ((t : Node)
          → is_entry t ≡ false
          → IsGranted svc request s
          → Ensures (HasReleased svc request) AnyError (go t s))
      → Ensures (HasReleased svc request) AnyError (follow target s go)
  unfolding follow
  follow-Released none s go h k = Ensures-pure s h
  follow-Released (some t) s go h k = k t h.1 h.0

  run_from-Released :
      (n : ℕ) (node : Node) (s : GraphState)
      → is_entry node ≡ false
      → IsGranted svc request s
      → Ensures (HasReleased svc request) AnyError (run_from rt svc n node s)
  unfolding run_from
  run_from-Released zero node s h g = Ensures-raise _ tt
  run_from-Released (suc n) node s h g =
      Ensures-bind Follows _ _ (step-Follows n node s h g)
        λ p f. follow-Released p.1 p.0 (run_from rt svc n) f (λ t. run_from-Released n t p.0)

  entry-Released :
      (n : ℕ)
      → Ensures
          (HasReleased svc request)
          AnyError
          (run_from rt svc n Node.privacy_permission (initial request))
  unfolding run_from
  entry-Released zero = Ensures-raise _ tt
  entry-Released (suc n) =
      Ensures-bind Follows _ _ (first-Follows n)
        λ p f. follow-Released p.1 p.0 (run_from rt svc n) f (λ t. run_from-Released n t p.0)

  final-Released :
      (s : GraphState)
      → HasReleased svc request s
      → Ensures (IsReleased svc request) AnyError (final s.final_answer)
  unfolding final
  final-Released s (answer, e, r) = rw e (Ensures-pure answer r)

  -- Whatever the agents do and however often they change their answers between visits: an answer
  -- that a run returns is the output filter's, under a scope that a resolver granted to the actor
  -- and the scope of the original request, whose question the inspection did not block.
  pub run_workflow-IsReleased :
      (recursion_limit : ℕ)
      → Ensures (IsReleased svc request) AnyError (run_workflow rt svc recursion_limit request)
  unfolding run_workflow
  run_workflow-IsReleased recursion_limit =
      Ensures-bind (HasReleased svc request) _ _ (entry-Released recursion_limit)
        λ s h. final-Released s h
