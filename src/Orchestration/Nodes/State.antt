-- ===== src/Orchestration/Nodes/State.antt =====
-- `OrchestrationGraphState`: the keys that the nodes write, `none` where a key is missing. The budget
-- and the reporter are in `World`.
use multi_agent_rag_local.Common.{ℕ, Option, none, List, []}
use multi_agent_rag_local.Domain.{
  OrchestrationRequest, AccessScope, RouteDecision, RouterDecision, TaskPlan, KnowledgeStrategy,
  ContextBundle, EvidenceBundle, ToolResult, CandidateAnswer, FinalAnswer, VerificationDecision,
  PrivacyResult,
}
use multi_agent_rag_local.Orchestration.Stage.{ExecutionEvent}

pub record GraphState : Type 0 where
  pub request : OrchestrationRequest
  pub privacy : Option PrivacyResult
  pub permission_scope : Option AccessScope
  pub route : Option RouteDecision
  pub route_decision : Option RouterDecision
  pub task_plan : Option TaskPlan
  pub knowledge_strategy : Option KnowledgeStrategy
  pub evidence_bundle : Option EvidenceBundle
  pub context : Option ContextBundle
  pub tool_results : List ToolResult
  pub candidate : Option FinalAnswer
  pub candidate_answer : Option CandidateAnswer
  pub verification : Option VerificationDecision
  pub retry_count : ℕ
  pub final_answer : Option FinalAnswer
  pub trace : List ExecutionEvent

-- The state that `OrchestrationEngine._run_workflow` starts with.
abbrev pub initial : OrchestrationRequest → GraphState
initial request = record {
  request = request;
  privacy = none;
  permission_scope = none;
  route = none;
  route_decision = none;
  task_plan = none;
  knowledge_strategy = none;
  evidence_bundle = none;
  context = none;
  tool_results = [];
  candidate = none;
  candidate_answer = none;
  verification = none;
  retry_count = 0;
  final_answer = none;
  trace = [];
}
