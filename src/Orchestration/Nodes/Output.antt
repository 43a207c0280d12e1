-- ===== src/Orchestration/Nodes/Output.antt =====
-- nodes.py: `output_filter`.
use multi_agent_rag_local.Common.{
  String, false, Option, none, some, List, [], ◌∷◌, ◌++◌, map, ◌==◌, if◌then◌else◌, length, filter,
  contains,
}
use Prim.Native.String.{◌++◌ as append}
use multi_agent_rag_local.OrderedDict.{insert}
use multi_agent_rag_local.Domain.{
  OrchestrationRequest, AccessScope, EvidenceItem, EvidenceBundle, FinalAnswer, ValidationStatus,
  ValidationState, Metadata, DlpResult,
}
use multi_agent_rag_local.Privacy.Dlp.{filter_output, mask_context}
use multi_agent_rag_local.Synthesizer.Citations.{number_evidence_markers, render_reference_list}
use multi_agent_rag_local.Orchestration.Timeout.{
  get_stats, Stage, permission_error, returned, raised,
}
use multi_agent_rag_local.Orchestration.Stage.{
  read_world, World, Run, Call, pure, required, ◌>>=◌, run_stage,
}
use multi_agent_rag_local.Orchestration.Services.{Services}
use multi_agent_rag_local.Orchestration.Nodes.State.{GraphState}
use multi_agent_rag_local.Orchestration.Nodes.Helpers.{citation_label, reference_language}

-- `masked_by_id.get(item.item_id, item)`; the last of two items with one id is found.
unfoldable pub substitute : List EvidenceItem → EvidenceItem → EvidenceItem
substitute [] item = item
substitute (m ∷ masked) item = substitute masked (if m.item_id == item.item_id then m else item)

unfoldable pub output_validation : DlpResult → ValidationStatus → ValidationStatus
output_validation dlp v = elim dlp.dropped_citation_ids [
  | [] ↦ v
  | _ ∷ _ ↦ record {
    state = ValidationState.degraded;
    approved = false;
    method = append v.method "+output_dlp";
    issues = v.issues ++ "unauthorized citations removed" ∷ [];
  }
]

abbrev final_text : String → String → String
final_text numbered reference_list =
    if reference_list == "" then numbered else append numbered (append "\n\n" reference_list)

abbrev pub ids : List EvidenceItem → List String
ids = map (λ (item : EvidenceItem). item.item_id)

-- The operation of `output_filter`, once a scope is there.
unfoldable pub filtered_answer :
    Services
    → OrchestrationRequest
    → AccessScope
    → EvidenceBundle
    → World
    → FinalAnswer
    → FinalAnswer
unfolding output_validation substitute
filtered_answer svc request scope evidence w answer =
    let cited_items = filter (λ item. contains item.item_id answer.evidence_ids) evidence.items in
    let dlp = filter_output svc.redactor answer.answer cited_items scope in
    let indexed = map (substitute dlp.citations) evidence.items in
    let (numbered, references) =
      number_evidence_markers svc.tools dlp.answer indexed (some (ids dlp.citations)) in
    let reference_list =
      render_reference_list svc.tools references (reference_language svc.tools request numbered) in
    let labels = map (citation_label svc.tools) references in
    record answer {
      answer = final_text numbered reference_list;
      citations = labels;
      evidence = record evidence {
        items = mask_context svc.redactor evidence.items scope;
        citations = labels;
      };
      cited_evidence = references;
      evidence_ids = ids references;
      validation = output_validation dlp answer.validation;
      safety =
          insert "output_dlp"
            (Metadata.output_dlp dlp.redaction_count (length dlp.dropped_citation_ids))
            answer.safety;
      execution_metadata = insert "orchestration_backend" (Metadata.text "langgraph") (
          insert "budget_stats" (Metadata.budget_stats (get_stats w.budget w.clock))
            answer.execution_metadata);
    }

unfoldable pub filter_operation :
    Services
    → OrchestrationRequest
    → Option AccessScope
    → EvidenceBundle
    → World
    → FinalAnswer
    → Call FinalAnswer
filter_operation svc request scope evidence w answer timeout_ms = record {
  duration = svc.local_time;
  outcome = elim scope [
    | none ↦ raised (permission_error "output filtering requires an access scope")
    | some scope ↦ returned (some (filtered_answer svc request scope evidence w answer))
  ];
}

unfoldable pub output_filter_node : Services → GraphState → Run GraphState
unfolding filter_operation
output_filter_node svc s = do
  answer ← required "final_answer" s.final_answer
  evidence ← required "evidence_bundle" s.evidence_bundle
  (filtered, event) ← read_world λ w.
      run_stage Stage.output_filter Stage.output_filter
        (filter_operation svc s.request s.permission_scope evidence w answer) none
  pure (record s { final_answer = some filtered; trace = s.trace ++ event ∷ [] })
