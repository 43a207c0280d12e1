-- ===== src/Orchestration/Nodes/Helpers.antt =====
-- nodes.py: the pure helpers at the end of the module.
use multi_agent_rag_local.Common.{
  ℕ, String, Bool, true, false, ◌&&◌, ◌||◌, Option, none, some, List, [], ◌∷◌, ◌++◌, ◌==◌, nat_eq,
  if◌then◌else◌, filter, any,
}
use Prim.Native.String.{◌++◌ as append}
use multi_agent_rag_local.Domain.{
  ValidationState, OrchestrationRequest, RequestScope, AccessScope, RouteDecision, KnowledgeSource,
  vector, bm25, graph, KnowledgeSourcePlan, KnowledgeStrategy, EvidenceRef, EvidenceItem,
  EvidenceBundle, CandidateAnswer, VerificationDecision, VerificationState, ValidationStatus,
  validated, effective_route,
}
use multi_agent_rag_local.Synthesizer.Citations.{TextTools}

unfoldable pub scope_to_request_scope : AccessScope → OrchestrationRequest → RequestScope
scope_to_request_scope scope request = record {
  allowed_sources = some scope.allowed_sources;
  document_ids = some scope.document_ids;
  acl_tags = some scope.acl_tags;
  allowed_fields = some scope.allowed_fields;
  agent_class_hint = request.source_scope.agent_class_hint;
}

abbrev pub option_eq {ℓ} : {A : Type ℓ} → (A → A → Bool) → Option A → Option A → Bool
option_eq eq none none = true
option_eq eq (some a) (some b) = eq a b
option_eq eq _ _ = false

-- The five fields of a reference and of an item, compared as tuples.
unfoldable pub refers_to : EvidenceRef → EvidenceItem → Bool
refers_to r item =
    r.document_id == item.document_id
    && option_eq nat_eq r.version item.version
    && option_eq nat_eq r.page item.page
    && option_eq (λ a b. a == b) r.chunk_id item.chunk_id
    && option_eq (λ a b. a == b) r.image_id item.image_id

unfoldable pub items_for_references : List EvidenceRef → EvidenceBundle → List EvidenceItem
unfolding refers_to
items_for_references references evidence =
    filter (λ item. any (λ r. refers_to r item) references) evidence.items

status_for : VerificationState → List String → ValidationStatus
status_for VerificationState.approved issues = record {
  state = validated;
  approved = true;
  method = "verifier";
  issues = issues;
}
status_for VerificationState.rejected issues = record {
  state = ValidationState.rejected;
  approved = false;
  method = "verifier";
  issues = issues;
}
status_for _ issues = record {
  state = ValidationState.degraded;
  approved = false;
  method = "verifier";
  issues = issues;
}

unfoldable pub verification_status : VerificationDecision → ValidationStatus
unfolding status_for
verification_status d =
    status_for d.status
      (d.unsupported_claims ++ (d.citation_errors ++ (d.conflicts ++ d.missing_aspects)))

unfoldable pub knowledge_hints : RouteDecision → List KnowledgeSource
knowledge_hints r =
    let actual = effective_route r in
    if actual == "graph"
    then vector ∷ bm25 ∷ graph ∷ []
    else if actual == "web"
    then vector ∷ bm25 ∷ KnowledgeSource.web ∷ []
    else if actual == "react"
    then vector ∷ bm25 ∷ KnowledgeSource.tool ∷ []
    else if actual == "hybrid"
    then vector ∷ bm25 ∷ graph ∷ []
    else vector ∷ bm25 ∷ []

unfoldable pub citation_label : TextTools → EvidenceItem → String
citation_label t item = elim item.page [
  | none ↦ item.source
  | some page ↦ append item.source (append ":" (t.decimal page))
]

abbrev is_approved : VerificationState → Bool
is_approved VerificationState.approved = true
is_approved _ = false

-- `_record_routing_outcome`: the confidence and the outcome that are given to the calibrator.
outcome : List EvidenceItem → VerificationState → ℕ → Option (ℕ × Bool)
outcome [] status raw = some (raw, false)
outcome (_ ∷ _) status raw = if is_approved status then some (raw, true) else none

unfoldable pub routing_outcome :
    RouteDecision → EvidenceBundle → VerificationDecision → Option (ℕ × Bool)
unfolding outcome
routing_outcome route evidence decision = elim route.raw_confidence [
  | none ↦ none
  | some raw ↦ outcome evidence.items decision.status raw
]

abbrev pub timed_out_route : RouteDecision
timed_out_route = record {
  intent = "knowledge_retrieval";
  route = some "vector";
  confidence = 0;
  raw_confidence = none;
  clarification_fields = [];
  requires_plan = false;
  allowed_capabilities = "rag" ∷ [];
  reason = "route_timeout_safe_default";
}

abbrev local_source : String → KnowledgeSource → KnowledgeSourcePlan
local_source question source = record {
  source = source;
  queries = question ∷ [];
  top_k = 6;
  timeout_ms = 10_000;
  required = true;
}

abbrev pub timed_out_strategy : String → KnowledgeStrategy
timed_out_strategy question = record {
  sources = local_source question vector ∷ local_source question bm25 ∷ [];
  rewrite = false;
  rerank = true;
  rerank_top_n = none;
  visual_required = false;
  rationale = "knowledge_strategy_timeout_local_default";
}

-- `SYNTHESIS_FALLBACK_MESSAGE` of app/agents/synthesizer/generation.py
abbrev pub timed_out_candidate : CandidateAnswer
timed_out_candidate = record {
  text = "抱歉，当前答案生成服务暂时不可用。请稍后重试，或先缩小问题范围后再试。";
  citations = [];
  unresolved_items = "synthesis_timeout" ∷ [];
}

abbrev pub timed_out_verification : VerificationDecision
timed_out_verification = record {
  status = VerificationState.degraded;
  unsupported_claims = [];
  citation_errors = [];
  conflicts = [];
  missing_aspects = "verification timed out" ∷ [];
  retry_query = none;
}

unfoldable pub reference_language : TextTools → OrchestrationRequest → String → String
reference_language t request answer =
    let forced = t.strip_lower request.force_language in
    if forced == "zh" || forced == "en" then forced else if t.has_chinese answer then "zh" else "en"
