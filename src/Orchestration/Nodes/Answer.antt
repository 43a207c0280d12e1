-- ===== src/Orchestration/Nodes/Answer.antt =====
-- nodes.py: `synthesizer` and `verifier`.
use multi_agent_rag_local.Orchestration.Policy.{ExecutionPolicy}
use multi_agent_rag_local.Common.{
  ℕ, ◌+◌, String, Bool, true, false, not, ◌&&◌, Option, none, some, List, [], ◌∷◌, ◌++◌, map, leb,
  if◌then◌else◌, length,
}
use Prim.Native.String.{◌++◌ as append}
use multi_agent_rag_local.Domain.{
  OrchestrationRequest, RouteDecision, ContextBundle, EvidenceRef, EvidenceItem, EvidenceBundle,
  ToolResult, CandidateAnswer, FinalAnswer, VerificationDecision, VerificationState,
}
use multi_agent_rag_local.Orchestration.Timeout.{Stage, returned, has_budget, retry_round_ms, ok}
use multi_agent_rag_local.Orchestration.Stage.{
  read_world, World, ExecutionEvent, Run, Call, pure, required, ◌>>=◌, run_stage,
}
use multi_agent_rag_local.Orchestration.Services.{Services, Runtime, retry_limit}
use multi_agent_rag_local.Orchestration.Nodes.State.{GraphState}
use multi_agent_rag_local.Orchestration.Nodes.Helpers.{
  items_for_references, verification_status, citation_label, routing_outcome, timed_out_candidate,
  timed_out_verification,
}

-- `SKILL_DEFAULT`: a `RouteDecision` has no field `skill`, so `getattr` finds its default, "".
abbrev pub skill_default : String
skill_default = "answer_with_citations"

abbrev reference_of : EvidenceItem → EvidenceRef
reference_of item = record {
  document_id = item.document_id;
  version = item.version;
  page = item.page;
  chunk_id = item.chunk_id;
  image_id = item.image_id;
}

-- The path without a candidate synthesizer.
unfoldable pub legacy_synthesis : Services → GraphState → Run GraphState
legacy_synthesis svc s = do
  route ← required "route" s.route
  evidence ← required "evidence_bundle" s.evidence_bundle
  (candidate, event) ←
      run_stage Stage.synthesize Stage.synthesize
        (svc.synthesizer s.request route s.task_plan evidence s.tool_results) none
  pure (record s {
    candidate = some candidate;
    candidate_answer = some (record {
      text = candidate.answer;
      citations = map reference_of evidence.items;
      unresolved_items = candidate.unresolved_items;
    });
    trace = s.trace ++ event ∷ [];
  })

unfoldable pub synthesis :
    Option (OrchestrationRequest → ContextBundle → List ToolResult → String → Call CandidateAnswer)
    → Services
    → ContextBundle
    → GraphState
    → Run GraphState
unfolding legacy_synthesis
synthesis none svc context s = legacy_synthesis svc s
synthesis (some synthesize) svc context s = do
  (candidate_answer, event) ←
      run_stage Stage.synthesize Stage.synthesize
        (synthesize s.request context s.tool_results skill_default) (some timed_out_candidate)
  pure (record s { candidate_answer = some candidate_answer; trace = s.trace ++ event ∷ [] })

unfoldable pub synthesizer_node : Services → GraphState → Run GraphState
unfolding synthesis
synthesizer_node svc s = do
  context ← required "context" s.context
  synthesis svc.candidate_synthesizer svc context s

-- Without a verifier the decision follows from what the candidate left unresolved.
default_decision : List String → VerificationDecision
default_decision unresolved = record {
  status = elim unresolved [ [] ↦ VerificationState.approved | _ ∷ _ ↦ VerificationState.degraded ];
  unsupported_claims = [];
  citation_errors = [];
  conflicts = [];
  missing_aspects = unresolved;
  retry_query = none;
}

verification_operation :
    Services
    → OrchestrationRequest
    → ContextBundle
    → CandidateAnswer
    → ℕ
    → Call VerificationDecision
unfolding default_decision
verification_operation svc request context candidate retry_count timeout_ms = elim svc.verifier [
  | none ↦ record {
    duration = svc.local_time;
    outcome = returned (some (default_decision candidate.unresolved_items));
  }
  | some verify ↦ verify request context candidate retry_count timeout_ms
]

abbrev pub wants_retry : VerificationDecision → Bool
wants_retry d = elim d.status [
  | VerificationState.retry_retrieval ↦ true
  | VerificationState.approved ↦ false
  | VerificationState.rejected ↦ false
  | VerificationState.degraded ↦ false
]

abbrev degrade : String → VerificationDecision → VerificationDecision
degrade reason d = record d {
  status = VerificationState.degraded;
  retry_query = none;
  missing_aspects = d.missing_aspects ++ reason ∷ [];
}

-- The two tests that turn a wish for a retry into a degraded decision, in their order.
unfoldable pub bound_retry :
    (limit retry_count : ℕ) (affordable : Bool) → VerificationDecision → VerificationDecision
bound_retry limit retry_count affordable d =
    let first =
      if wants_retry d && leb limit retry_count
      then degrade "verifier retry budget exhausted" d
      else d in
    if wants_retry first && not affordable
    then degrade "insufficient time budget for verifier retry" first
    else first

abbrev status_text : VerificationState → String
status_text VerificationState.approved = "approved"
status_text VerificationState.retry_retrieval = "retry_retrieval"
status_text VerificationState.rejected = "rejected"
status_text VerificationState.degraded = "degraded"

unfoldable pub base_answer :
    Services
    → GraphState
    → RouteDecision
    → EvidenceBundle
    → CandidateAnswer
    → VerificationDecision
    → FinalAnswer
base_answer svc s route evidence candidate decision =
    let cited = items_for_references candidate.citations evidence in
    record {
      answer = candidate.text;
      citations = map (citation_label svc.tools) cited;
      route = route;
      evidence = evidence;
      cited_evidence = [];
      evidence_ids = map (λ (item : EvidenceItem). item.item_id) cited;
      tool_results = s.tool_results;
      unresolved_items = candidate.unresolved_items;
      conflict_notes = decision.conflicts;
      execution_summary = append "verifier=" (
          append (status_text decision.status)
            (append " evidence=" (svc.tools.decimal (length evidence.items))));
      validation = verification_status decision;
      safety = [];
      execution_metadata = [];
    }

-- The finalizer is optional, and its timeout falls back to the answer that it was given.
unfoldable pub finalize_by :
    Option
      (OrchestrationRequest → EvidenceBundle → FinalAnswer → ExecutionPolicy → Call FinalAnswer)
    → Runtime
    → OrchestrationRequest
    → EvidenceBundle
    → FinalAnswer
    → Run (FinalAnswer × List ExecutionEvent)
finalize_by none rt request evidence base = pure (base, [])
finalize_by (some finalizer) rt request evidence base = do
  (answer, event) ←
      run_stage Stage.finalize Stage.finalize (finalizer request evidence base rt.policy)
        (some base)
  pure (answer, event ∷ [])

abbrev pub record_feedback : Option (ℕ × Bool) → Run (Unit {0})
record_feedback none w = (ok tt, w)
record_feedback (some f) w = (ok tt, record w { feedback = w.feedback ++ f ∷ [] })

unfoldable pub conclude :
    Runtime
    → Services
    → GraphState
    → RouteDecision
    → EvidenceBundle
    → CandidateAnswer
    → VerificationDecision
    → ExecutionEvent
    → Run GraphState
unfolding finalize_by
conclude rt svc s route evidence candidate decision event = do
  _ ← record_feedback (routing_outcome route evidence decision)
  (answer, events) ←
      finalize_by svc.finalizer rt s.request evidence
        (base_answer svc s route evidence candidate decision)
  pure (record s {
    final_answer = some answer;
    verification = some decision;
    trace = s.trace ++ event ∷ events;
  })

abbrev pub affordable_retry : World → Bool
affordable_retry w = has_budget w.budget w.clock (retry_round_ms w.budget.config)

-- The update that sends the graph back to `knowledge`.
unfoldable pub next_round : GraphState → VerificationDecision → ExecutionEvent → GraphState
next_round s decision event = record s {
  verification = some decision;
  retry_count = s.retry_count + 1;
  trace = s.trace ++ event ∷ [];
}

unfoldable pub verifier_node : Runtime → Services → GraphState → Run GraphState
unfolding verification_operation conclude
verifier_node rt svc s = do
  evidence ← required "evidence_bundle" s.evidence_bundle
  route ← required "route" s.route
  context ← required "context" s.context
  candidate ← required "candidate_answer" s.candidate_answer
  (reply, event) ←
      run_stage Stage.verifier Stage.verifier
        (verification_operation svc s.request context candidate s.retry_count)
        (some timed_out_verification)
  read_world λ w.
      let decision = bound_retry (retry_limit rt) s.retry_count (affordable_retry w) reply in
      if wants_retry decision
      then pure (next_round s decision event)
      else conclude rt svc s route evidence candidate decision event
