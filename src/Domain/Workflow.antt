-- ===== src/Domain/Workflow.antt =====
-- app/domain/workflow.py, app/domain/events.py and the results of app/privacy/models.py.
use multi_agent_rag_local.Common.{ℕ, Bool, Option, List, String}
use multi_agent_rag_local.OrderedDict.{OrderedDict}
use multi_agent_rag_local.Domain.Knowledge.{KnowledgeSource, EvidenceRef}
use multi_agent_rag_local.Domain.Contracts.{EvidenceItem}

pub data Complexity : Type 0 where
  simple complex : Complexity

pub data Completeness : Type 0 where
  complete incomplete ambiguous : Completeness

pub data NextStage : Type 0 where
  planner knowledge : NextStage

pub record RouterDecision : Type 0 where
  pub intent : String
  pub complexity : Complexity
  pub completeness : Completeness
  pub next_stage : NextStage
  pub knowledge_hints : List KnowledgeSource
  pub confidence : ℕ
  pub reason : String

pub record ContextBundle : Type 0 where
  pub evidence : List EvidenceItem
  pub rendered_context : String
  pub diagnostics : OrderedDict String

pub record CandidateAnswer : Type 0 where
  pub text : String
  pub citations : List EvidenceRef
  pub unresolved_items : List String

pub data VerificationState : Type 0 where
  approved retry_retrieval rejected degraded : VerificationState

pub record VerificationDecision : Type 0 where
  pub status : VerificationState
  pub unsupported_claims : List String
  pub citation_errors : List String
  pub conflicts : List String
  pub missing_aspects : List String
  pub retry_query : Option String

-- The images of an input are not modelled: the workflow inspects the question alone.
pub record PrivacyResult : Type 0 where
  pub text : String
  pub redaction_count : ℕ
  pub blocked : Bool
  pub degraded : Bool

pub record DlpResult : Type 0 where
  pub answer : String
  pub citations : List EvidenceItem
  pub redaction_count : ℕ
  pub dropped_citation_ids : List String

pub data EventStatus : Type 0 where
  completed failed skipped : EventStatus
