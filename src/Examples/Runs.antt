-- ===== src/Examples/Runs.antt =====
-- The workflow on concrete services.
use multi_agent_rag_local.Orchestration.Workflow.Rounds.{step-Decided, Decided}
use multi_agent_rag_local.Domain.{VerificationState, FinalAnswer}
use multi_agent_rag_local.Orchestration.Timeout.{
  retry_round_ms, has_budget, get_stage_timeout, run_stage_body, remaining_ms, elapsed_ms,
  check_budget, run_with_timeout, err, ok, Stage, Result,
}
use multi_agent_rag_local.Orchestration.Workflow.Released.{run_workflow-IsReleased}
use multi_agent_rag_local.Orchestration.Workflow.Guarded.{run_from-ends, visit-Clean}
use multi_agent_rag_local.Orchestration.Stage.{◌>>=◌, ExecutionEvent, run_stage}
use multi_agent_rag_local.Orchestration.Workflow.Scoped.{IsReleased}
use multi_agent_rag_local.Orchestration.Workflow.{
  final, follow, next, Node, run_workflow, step, run_from, visit,
}
use multi_agent_rag_local.Examples.Fixtures.{
  toy_world, reply, toy_context, toy_bundle, toy_request, toy_runtime, toy_services,
}
use multi_agent_rag_local.Orchestration.Nodes.{
  timed_out_route, verifier_node, initial, GraphState, bound_retry,
}
use multi_agent_rag_local.Orchestration.Post.{AnyError, Ensures}
use multi_agent_rag_local.Orchestration.Stage.Errors.{run_stage-Allowed, Clean}
use multi_agent_rag_local.Orchestration.Services.{Services}
use multi_agent_rag_local.Common.{◌-ℤ◌, String, ℕ, ◌<◌, ◌≡◌, refl, true, false, some, [], arith}

abbrev toy_visits : ℕ → Services
toy_visits n = toy_services

run_from-ends_example :
    Clean true (run_from toy_runtime toy_visits 10 Node.privacy_permission (initial toy_request))
run_from-ends_example = run_from-ends toy_runtime toy_visits 10 toy_request (omega arith)

run_workflow-IsReleased_example :
    Ensures
      (IsReleased toy_visits toy_request)
      AnyError
      (run_workflow toy_runtime toy_visits 25 toy_request)
run_workflow-IsReleased_example = run_workflow-IsReleased toy_visits toy_request toy_runtime 25

visit-Clean_example :
    Clean false (visit toy_runtime toy_services Node.synthesizer (initial toy_request))
visit-Clean_example = visit-Clean toy_runtime toy_services Node.synthesizer (initial toy_request)

abbrev answer_of : Result FinalAnswer → String
answer_of (ok answer) = answer.answer
answer_of (err e) = "failed"

-- The first candidate is sent back, and the second one is released with one reference.
run_workflow_test :
    answer_of (run_workflow toy_runtime toy_visits 10 toy_request toy_world).0
    ≡ "5 Nm[n][n]\n\n**References**\n\n- [1] manual.pdf · p. 1"
unfolding multi_agent_rag_local.Orchestration.Workflow.visit
    multi_agent_rag_local.Orchestration.Workflow.after_router
    multi_agent_rag_local.Orchestration.Workflow.after_verifier
    multi_agent_rag_local.Orchestration.Workflow.next
    multi_agent_rag_local.Orchestration.Workflow.step
    multi_agent_rag_local.Orchestration.Workflow.follow
    multi_agent_rag_local.Orchestration.Workflow.run_from
    multi_agent_rag_local.Orchestration.Workflow.final
    multi_agent_rag_local.Orchestration.Workflow.run_workflow
    multi_agent_rag_local.Orchestration.Stage.pure multi_agent_rag_local.Orchestration.Stage.raise
    multi_agent_rag_local.Orchestration.Stage.lift
    multi_agent_rag_local.Orchestration.Stage.required
    multi_agent_rag_local.Orchestration.Stage.read_world
    multi_agent_rag_local.Orchestration.Stage.◌>>=◌
    multi_agent_rag_local.Orchestration.Stage.run_stage
    multi_agent_rag_local.Orchestration.Policy.validate_route
    multi_agent_rag_local.Orchestration.Policy.should_plan
    multi_agent_rag_local.Orchestration.Policy.should_run_tools
    multi_agent_rag_local.Orchestration.Timeout.stage_sum_ms
    multi_agent_rag_local.Orchestration.Timeout.retry_round_ms
    multi_agent_rag_local.Orchestration.Timeout.validate
    multi_agent_rag_local.Orchestration.Timeout.deadline_offset_ms
    multi_agent_rag_local.Orchestration.Timeout.new_budget
    multi_agent_rag_local.Orchestration.Timeout.elapsed_ms
    multi_agent_rag_local.Orchestration.Timeout.remaining_ms
    multi_agent_rag_local.Orchestration.Timeout.has_budget
    multi_agent_rag_local.Orchestration.Timeout.check_budget
    multi_agent_rag_local.Orchestration.Timeout.record_stage
    multi_agent_rag_local.Orchestration.Timeout.get_stage_timeout
    multi_agent_rag_local.Orchestration.Timeout.run_stage_body
    multi_agent_rag_local.Orchestration.Timeout.run_with_timeout
    multi_agent_rag_local.Orchestration.Nodes.legacy_synthesis
    multi_agent_rag_local.Orchestration.Nodes.synthesis
    multi_agent_rag_local.Orchestration.Nodes.synthesizer_node
    multi_agent_rag_local.Orchestration.Nodes.bound_retry
    multi_agent_rag_local.Orchestration.Nodes.base_answer
    multi_agent_rag_local.Orchestration.Nodes.finalize_by
    multi_agent_rag_local.Orchestration.Nodes.conclude
    multi_agent_rag_local.Orchestration.Nodes.next_round
    multi_agent_rag_local.Orchestration.Nodes.verifier_node
    multi_agent_rag_local.Orchestration.Nodes.substitute
    multi_agent_rag_local.Orchestration.Nodes.output_validation
    multi_agent_rag_local.Orchestration.Nodes.filtered_answer
    multi_agent_rag_local.Orchestration.Nodes.filter_operation
    multi_agent_rag_local.Orchestration.Nodes.output_filter_node
    multi_agent_rag_local.Orchestration.Nodes.scope_to_request_scope
    multi_agent_rag_local.Orchestration.Nodes.refers_to
    multi_agent_rag_local.Orchestration.Nodes.items_for_references
    multi_agent_rag_local.Orchestration.Nodes.verification_status
    multi_agent_rag_local.Orchestration.Nodes.knowledge_hints
    multi_agent_rag_local.Orchestration.Nodes.citation_label
    multi_agent_rag_local.Orchestration.Nodes.routing_outcome
    multi_agent_rag_local.Orchestration.Nodes.reference_language
    multi_agent_rag_local.Orchestration.Nodes.resolved
    multi_agent_rag_local.Orchestration.Nodes.authorize
    multi_agent_rag_local.Orchestration.Nodes.privacy_permission_node
    multi_agent_rag_local.Orchestration.Nodes.router_decision
    multi_agent_rag_local.Orchestration.Nodes.router_node
    multi_agent_rag_local.Orchestration.Nodes.planner_node
    multi_agent_rag_local.Orchestration.Nodes.run_tools
    multi_agent_rag_local.Orchestration.Nodes.knowledge_node
    multi_agent_rag_local.Synthesizer.Citations.same_reference
    multi_agent_rag_local.Synthesizer.Citations.number_of
    multi_agent_rag_local.Synthesizer.Citations.evidence_at
    multi_agent_rag_local.Synthesizer.Citations.assign
    multi_agent_rag_local.Synthesizer.Citations.renumber
    multi_agent_rag_local.Synthesizer.Citations.number_evidence_markers
    multi_agent_rag_local.Synthesizer.Citations.reference_label
    multi_agent_rag_local.Synthesizer.Citations.render_reference_list
    multi_agent_rag_local.Privacy.Dlp.memory_source_prefix
    multi_agent_rag_local.Privacy.Dlp.evidence_is_authorized
    multi_agent_rag_local.Privacy.Dlp.mask_evidence
    multi_agent_rag_local.Privacy.Dlp.split_citations
    multi_agent_rag_local.Privacy.Dlp.filter_output multi_agent_rag_local.Privacy.Dlp.mask_context
    multi_agent_rag_local.OrderedDict.lookup multi_agent_rag_local.OrderedDict.insert
    multi_agent_rag_local.Domain.effective_route multi_agent_rag_local.Domain.requires_tools
    multi_agent_rag_local.Common.◌-ℤ◌
run_workflow_test = refl

-- In a state that is ready for the verifier.
abbrev ready : GraphState
ready = record (initial toy_request) {
  route = some timed_out_route;
  evidence_bundle = some toy_bundle;
  context = some toy_context;
  candidate_answer = some (record { text = "5 Nm"; citations = []; unresolved_items = [] });
}

step-Decided_example :
    Ensures (Decided 1 ready) AnyError (step toy_runtime toy_services Node.verifier ready)
step-Decided_example = step-Decided toy_runtime toy_services ready

run_stage-Allowed_example : Clean false (run_stage {A = ℕ} Stage.tool Stage.tool (reply 3) (some 0))
run_stage-Allowed_example = run_stage-Allowed Stage.tool Stage.tool (reply 3) (some 0)
