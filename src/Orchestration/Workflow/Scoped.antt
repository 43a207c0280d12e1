-- ===== src/Orchestration/Workflow/Scoped.antt =====
-- nodes.py: the scope that the entry grants, and the answer that the last node releases.
use mathlib.Core.Option.{some-injective}
use multi_agent_rag_local.Orchestration.Stage.Results.{run_stage-Ensures, OfOutcome, OfOption}
use multi_agent_rag_local.Orchestration.Post.{
  Ensures-pure, Ensures-world, Ensures-bind, Ensures-read, AnyError, Ensures,
}
use multi_agent_rag_local.Common.{
  sym, ap, ◌∙◌, Bool, true, Option, none, if◌then◌else◌, ℕ, ◌≡◌, refl, false, some,
}
use multi_agent_rag_local.Domain.{
  EvidenceBundle, FinalAnswer, OrchestrationRequest, AccessScope, PrivacyResult,
}
use multi_agent_rag_local.Orchestration.Timeout.{Outcome, Result, ok, err}
use multi_agent_rag_local.Orchestration.Nodes.{
  filtered_answer, initial, filter_operation, output_filter_node, privacy_permission_node, resolved,
  GraphState, authorize, scope_to_request_scope,
}
use multi_agent_rag_local.Orchestration.Workflow.{World, Services}

-- The scope that a state carries was granted to the actor and the scope of the original request, by
-- one of the resolvers, and the request of the state asks for exactly that scope.
pub record IsGranted (svc : ℕ → Services) (request : OrchestrationRequest) (s : GraphState)
    : Type 0 where
  pub scope : AccessScope
  pub visit_number : ℕ
  pub carried : s.permission_scope ≡ some scope
  pub granted : (svc visit_number).resolve_scope request.actor request.source_scope ≡ ok scope
  pub narrowed : s.request.source_scope ≡ scope_to_request_scope scope request
  pub not_blocked : ((svc visit_number).inspect_input request.question).blocked ≡ false
  pub inspected : s.request.question ≡ ((svc visit_number).inspect_input request.question).text

-- What `privacy_permission` returns, for one state of the services.
abbrev Authorized :
    Services → OrchestrationRequest → PrivacyResult × AccessScope × OrchestrationRequest → Type 0
Authorized svc request (privacy, scope, narrowed) =
    (svc.resolve_scope request.actor request.source_scope ≡ ok scope)
    × (narrowed.source_scope ≡ scope_to_request_scope scope request)
    × ((svc.inspect_input request.question).blocked ≡ false)
    × (narrowed.question ≡ (svc.inspect_input request.question).text)

resolved-Authorized :
    (svc : Services) (request : OrchestrationRequest) (r : Result AccessScope)
    → svc.resolve_scope request.actor request.source_scope ≡ r
    → (svc.inspect_input request.question).blocked ≡ false
    → OfOutcome
        (OfOption (Authorized svc request))
        (resolved (svc.inspect_input request.question) request r)
unfolding resolved
resolved-Authorized svc request (ok scope) e b = (e, refl, b, refl)
resolved-Authorized svc request (err x) e b = tt

outcome-if {ℓ} :
    {A : Type ℓ} (Q : A → Type 0) (b : Bool) (x y : Outcome A)
    → (b ≡ true → OfOutcome Q x)
    → (b ≡ false → OfOutcome Q y)
    → OfOutcome Q (if b then x else y)
outcome-if Q true x y h k = h refl
outcome-if Q false x y h k = k refl

authorize-Authorized :
    (svc : Services) (request : OrchestrationRequest) (t : ℕ)
    → OfOutcome (OfOption (Authorized svc request)) (authorize svc request t).outcome
unfolding authorize
authorize-Authorized svc request t =
    outcome-if (OfOption (Authorized svc request)) (svc.inspect_input request.question).blocked _ _
      (λ stop. tt)
      (λ clear.
        resolved-Authorized svc request (svc.resolve_scope request.actor request.source_scope) refl
          clear)

module _ (svc : ℕ → Services) (request : OrchestrationRequest) where
  pub privacy_permission-IsGranted :
      (k : ℕ)
      → Ensures (IsGranted svc request) AnyError (privacy_permission_node (svc k) (initial request))
  unfolding privacy_permission_node
  privacy_permission-IsGranted k =
      Ensures-bind (λ p. Authorized (svc k) request p.0) _ _
        (run_stage-Ensures (Authorized (svc k) request) _ _ _ none
          (authorize-Authorized (svc k) request) tt)
        λ p h. Ensures-pure _ (record {
          scope = p.0.1;
          visit_number = k;
          carried = refl;
          granted = h.0;
          narrowed = h.1;
          not_blocked = h.2;
          inspected = h.3;
        })

  pub carry :
      (s s' : GraphState)
      → s'.permission_scope ≡ s.permission_scope
      → s'.request ≡ s.request
      → IsGranted svc request s
      → IsGranted svc request s'
  carry s s' e r g = record {
    scope = g.scope;
    visit_number = g.visit_number;
    carried = e ∙ g.carried;
    granted = g.granted;
    narrowed = ap (λ (q : OrchestrationRequest). q.source_scope) r ∙ g.narrowed;
    not_blocked = g.not_blocked;
    inspected = ap (λ (q : OrchestrationRequest). q.question) r ∙ g.inspected;
  }

  -- The answer is the output filter's, over some evidence and some earlier answer, under a scope that
  -- a resolver granted to the actor and the scope of the request.
  pub record IsReleased (answer : FinalAnswer) : Type 0 where
    pub resolver : ℕ
    pub filter_visit : ℕ
    pub scope : AccessScope
    pub narrowed : OrchestrationRequest
    pub evidence : EvidenceBundle
    pub world : World
    pub unfiltered : FinalAnswer
    pub granted : (svc resolver).resolve_scope request.actor request.source_scope ≡ ok scope
    pub not_blocked : ((svc resolver).inspect_input request.question).blocked ≡ false
    pub filtered :
        answer ≡ filtered_answer (svc filter_visit) narrowed scope evidence world unfiltered

  filter_operation-IsReleased :
      (k : ℕ) (s : GraphState) (evidence : EvidenceBundle) (w : World) (base : FinalAnswer)
      → IsGranted svc request s
      → (o : Option AccessScope) → o ≡ s.permission_scope
      → (t : ℕ)
      → OfOutcome
          (OfOption IsReleased)
          (filter_operation (svc k) s.request o evidence w base t).outcome
  unfolding filter_operation
  filter_operation-IsReleased k s evidence w base g none e t = tt
  filter_operation-IsReleased k s evidence w base g (some scope) e t =
      let same : scope ≡ g.scope = some-injective scope g.scope (e ∙ g.carried) in
      record {
        resolver = g.visit_number;
        filter_visit = k;
        scope = scope;
        narrowed = s.request;
        evidence = evidence;
        world = w;
        unfiltered = base;
        granted = g.granted ∙ ap ok (sym same);
        not_blocked = g.not_blocked;
        filtered = refl;
      }

  abbrev pub HasReleased : GraphState → Type 0
  HasReleased s = (answer : FinalAnswer) × (s.final_answer ≡ some answer) × IsReleased answer

  pub output_filter-HasReleased :
      (k : ℕ) (s : GraphState)
      → IsGranted svc request s
      → Ensures HasReleased AnyError (output_filter_node (svc k) s)
  unfolding output_filter_node
  output_filter-HasReleased k s g = Ensures-read _ _ _ λ base _. Ensures-read _ _ _ λ evidence _.
      Ensures-bind (λ p. IsReleased p.0) _ _
        (Ensures-world _ λ w.
          run_stage-Ensures IsReleased _ _ _ none
            (filter_operation-IsReleased k s evidence w base g s.permission_scope refl) tt)
        λ p h. Ensures-pure _ (p.0, refl, h)
