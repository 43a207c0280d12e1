-- ===== src/Orchestration/Services.antt =====
-- `WorkflowServices` of app/orchestration/langgraph/nodes.py: the agents that the nodes call. They
-- run models and searches and may return anything, raise, or run out of time. The scope resolver is
-- that of app/services/security/access_scope.py.
use multi_agent_rag_local.Common.{ℕ, min, String, Option, List}
use multi_agent_rag_local.Domain.{
  OrchestrationRequest, RequestActor, RequestScope, AccessScope, RouteDecision, RouterDecision,
  TaskPlan, KnowledgeStrategy, ContextBundle, EvidenceBundle, ToolResult, CandidateAnswer,
  FinalAnswer, VerificationDecision, PrivacyResult,
}
use multi_agent_rag_local.Privacy.Dlp.{Redactor}
use multi_agent_rag_local.Synthesizer.Citations.{TextTools}
use multi_agent_rag_local.Orchestration.Timeout.{Result}
use multi_agent_rag_local.Orchestration.Policy.{ExecutionPolicy}
use multi_agent_rag_local.Orchestration.Stage.{Call}

pub record Services : Type 0 where
  pub router : OrchestrationRequest → Call RouteDecision
  pub planner : OrchestrationRequest → RouteDecision → Call TaskPlan
  pub knowledge_agent :
      OrchestrationRequest
      → RouterDecision
      → Option TaskPlan
      → Option VerificationDecision
      → Option AccessScope
      → Call KnowledgeStrategy
  pub retriever :
      OrchestrationRequest
      → RouteDecision
      → Option TaskPlan
      → KnowledgeStrategy
      → AccessScope
      → Call ContextBundle
  pub tool_runner : OrchestrationRequest → RouteDecision → TaskPlan → Call (List ToolResult)
  pub synthesizer :
      OrchestrationRequest
      → RouteDecision
      → Option TaskPlan
      → EvidenceBundle
      → List ToolResult
      → Call FinalAnswer
  pub candidate_synthesizer :
      Option
        (OrchestrationRequest → ContextBundle → List ToolResult → String → Call CandidateAnswer)
  pub verifier :
      Option
        (OrchestrationRequest → ContextBundle → CandidateAnswer → ℕ → Call VerificationDecision)
  pub finalizer :
      Option
        (OrchestrationRequest → EvidenceBundle → FinalAnswer → ExecutionPolicy → Call FinalAnswer)
  pub inspect_input : String → PrivacyResult
  pub resolve_scope : Option RequestActor → RequestScope → Result AccessScope
  pub redactor : Redactor
  pub tools : TextTools
  -- How long a stage takes that awaits nothing, and so is never interrupted.
  pub local_time : ℕ

-- What `WorkflowNodeRuntime` is built with.
pub record Runtime : Type 0 where
  pub policy : ExecutionPolicy
  pub max_verifier_retries : ℕ

-- `max(0, min(1, int(max_verifier_retries)))`
abbrev pub retry_limit : Runtime → ℕ
retry_limit rt = min 1 rt.max_verifier_retries
