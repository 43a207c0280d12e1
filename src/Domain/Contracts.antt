-- ===== src/Domain/Contracts.antt =====
-- app/domain/contracts.py: routes, plans, evidence and answers.
use multi_agent_rag_local.Common.{
  ℤ, ℕ, Bool, Option, none, some, List, String, any, ◌==◌, if◌then◌else◌,
}
use multi_agent_rag_local.OrderedDict.{OrderedDict}
use multi_agent_rag_local.Domain.Knowledge.{EvidenceLayer}

pub record RouteDecision : Type 0 where
  pub intent : String
  pub route : Option String
  pub confidence : ℕ
  pub raw_confidence : Option ℕ
  pub clarification_fields : List String
  pub requires_plan : Bool
  pub allowed_capabilities : List String
  pub reason : String

-- The table of `effective_route`, with the intent itself as the default of its `get`.
route_of_intent : String → String
route_of_intent intent =
    if intent == "knowledge_retrieval"
    then "vector"
    else if intent == "general_qa"
    then "vector"
    else if intent == "web_search"
    then "web"
    else if intent == "tool_call"
    then "react"
    else intent

-- `self.route or {...}`: an empty route is falsy.
effective : Option String → String → String
unfolding route_of_intent
effective none intent = route_of_intent intent
effective (some route) intent = if route == "" then route_of_intent intent else route

unfoldable pub effective_route : RouteDecision → String
unfolding effective
effective_route r = effective r.route r.intent

pub record PlannedTask : Type 0 where
  pub task_id : String
  pub prompt : String
  pub depends_on : List String
  pub parallel_group : Option String
  pub knowledge_required : Bool
  pub tool_required : Bool

pub record TaskPlan : Type 0 where
  pub tasks : List PlannedTask
  pub plan_fallback_reason : Option String

unfoldable pub requires_tools : TaskPlan → Bool
requires_tools p = any (λ t. t.tool_required) p.tasks

pub record EvidenceItem : Type 0 where
  pub item_id : String
  pub content : String
  pub source : String
  pub document_id : String
  pub version : Option ℕ
  pub page : Option ℕ
  pub chunk_id : Option String
  pub image_id : Option String
  pub artifact_uri : Option String
  pub layer : EvidenceLayer
  pub acl_tags : List String
  pub retriever : String
  pub score : Option ℕ
  pub conflict_group : Option String

pub record EvidenceBundle : Type 0 where
  pub route : Option RouteDecision
  pub plan : Option TaskPlan
  pub items : List EvidenceItem
  pub citations : List String
  pub diagnostics : OrderedDict String

pub record ToolResult : Type 0 where
  pub tool_id : String
  pub status : String
  pub approval_status : String
  pub approval_token : Option String
  pub summary : String
  pub evidence_ids : List String

pub data ValidationState : Type 0 where
  validated degraded rejected : ValidationState

pub record ValidationStatus : Type 0 where
  pub state : ValidationState
  pub approved : Bool
  pub method : String
  pub issues : List String

-- What `ExecutionBudget.get_stats` reports. `budget_utilization` is the quotient of its two numbers.
pub record BudgetStats : Type 0 where
  pub total_elapsed_ms : ℕ
  pub total_budget_ms : ℕ
  pub caller_deadline_ms : Option ℤ
  pub remaining_ms : ℕ
  pub stage_times : OrderedDict ℕ
  pub budget_utilization : ℕ × ℕ

-- The values that the workflow writes into `safety` and `execution_metadata`.
pub data Metadata : Type 0 where
  text : String → Metadata
  output_dlp : (redactions dropped_citations : ℕ) → Metadata
  budget_stats : BudgetStats → Metadata

pub record FinalAnswer : Type 0 where
  pub answer : String
  pub citations : List String
  pub route : RouteDecision
  pub evidence : EvidenceBundle
  pub cited_evidence : List EvidenceItem
  pub evidence_ids : List String
  pub tool_results : List ToolResult
  pub unresolved_items : List String
  pub conflict_notes : List String
  pub execution_summary : String
  pub validation : ValidationStatus
  pub safety : OrderedDict Metadata
  pub execution_metadata : OrderedDict Metadata
