-- ===== src/Orchestration/Workflow.antt =====
-- app/orchestration/langgraph/workflow.py: the graph over the nodes, and one run of it. LangGraph
-- calls one node at a time along these edges and gives up after `recursion_limit` of them.
pub mod Bounded
pub mod Rounds
pub mod Scoped
pub mod Guarded
pub mod Released
use multi_agent_rag_local.Common.{ℕ, zero, suc, ◌&&◌, Option, none, some, ltb, leb, if◌then◌else◌}
use multi_agent_rag_local.Domain.{
  OrchestrationRequest, RouterDecision, NextStage, FinalAnswer, VerificationDecision,
}
use multi_agent_rag_local.Orchestration.Timeout.{recursion_error, Result, ok, err, runtime_error}
use multi_agent_rag_local.Orchestration.Stage.{World, Run, pure, raise, lift, required, ◌>>=◌}
use multi_agent_rag_local.Orchestration.Services.{Services, Runtime, retry_limit}
use multi_agent_rag_local.Orchestration.Nodes.{
  GraphState, initial, privacy_permission_node, router_node, planner_node, knowledge_node,
  synthesizer_node, verifier_node, output_filter_node, wants_retry,
}

pub data Node : Type 0 where
  privacy_permission router planner knowledge synthesizer verifier output_filter : Node

unfoldable pub visit : Runtime → Services → Node → GraphState → Run GraphState
visit rt svc privacy_permission s = privacy_permission_node svc s
visit rt svc router s = router_node rt svc s
visit rt svc planner s = planner_node svc s
visit rt svc knowledge s = knowledge_node rt svc s
visit rt svc synthesizer s = synthesizer_node svc s
visit rt svc verifier s = verifier_node rt svc s
visit rt svc output_filter s = output_filter_node svc s

-- `after_router`
abbrev pub entry_of : NextStage → Node
entry_of NextStage.planner = planner
entry_of NextStage.knowledge = knowledge

unfoldable pub after_router : GraphState → Run Node
after_router s = do
  decision ← required "route_decision" s.route_decision
  pure (entry_of decision.next_stage)

-- `after_verifier`
unfoldable pub after_verifier : Runtime → GraphState → Run Node
after_verifier rt s = do
  decision ← required "verification" s.verification
  pure (
      if wants_retry decision && (ltb 0 s.retry_count && leb s.retry_count (retry_limit rt))
      then knowledge
      else output_filter)

-- The edges of the graph; `none` is `END`.
unfoldable pub next : Runtime → Node → GraphState → Run (Option Node)
unfolding after_router after_verifier
next rt privacy_permission s = pure (some router)
next rt router s = do node ← after_router s; pure (some node)
next rt planner s = pure (some knowledge)
next rt knowledge s = pure (some synthesizer)
next rt synthesizer s = pure (some verifier)
next rt verifier s = do node ← after_verifier rt s; pure (some node)
next rt output_filter s = pure none

-- One node and the edge behind it.
unfoldable pub step : Runtime → Services → Node → GraphState → Run (GraphState × Option Node)
step rt svc node s = do s' ← visit rt svc node s; target ← next rt node s'; pure (s', target)

-- Along the edge that was chosen, or to the end.
unfoldable pub follow :
    Option Node → GraphState → (Node → GraphState → Run GraphState) → Run GraphState
follow none s go = pure s
follow (some target) s go = go target s

-- The services of the visit with `n` visits still allowed: they may answer differently each time.
unfoldable pub run_from : Runtime → (ℕ → Services) → ℕ → Node → GraphState → Run GraphState
unfolding follow
run_from rt svc zero node s = raise recursion_error
run_from rt svc (suc n) node s = do
  (s', target) ← step rt (svc n) node s
  follow target s' (run_from rt svc n)

unfoldable pub final : Option FinalAnswer → Run FinalAnswer
final none = raise (runtime_error "LangGraph workflow completed without FinalAnswer")
final (some answer) = pure answer

-- `OrchestrationEngine._run_workflow`, up to the diagnostics that it adds to the answer.
unfoldable pub run_workflow : Runtime → (ℕ → Services) → ℕ → OrchestrationRequest → Run FinalAnswer
unfolding run_from final
run_workflow rt svc recursion_limit request = do
  result ← run_from rt svc recursion_limit privacy_permission (initial request)
  final result.final_answer
