-- ===== src/Domain/Knowledge.antt =====
-- app/domain/knowledge.py
use multi_agent_rag_local.Common.{ℕ, Bool, Option, List, String}

pub data KnowledgeSource : Type 0 where
  vector bm25 graph wiki memory multimodal web tool : KnowledgeSource

pub data EvidenceLayer : Type 0 where
  evidence knowledge memory web tool : EvidenceLayer

pub record EvidenceRef : Type 0 where
  pub document_id : String
  pub version : Option ℕ
  pub page : Option ℕ
  pub chunk_id : Option String
  pub image_id : Option String

pub record KnowledgeSourcePlan : Type 0 where
  pub source : KnowledgeSource
  pub queries : List String
  pub top_k : ℕ
  pub timeout_ms : ℕ
  pub required : Bool

pub record KnowledgeStrategy : Type 0 where
  pub sources : List KnowledgeSourcePlan
  pub rewrite : Bool
  pub rerank : Bool
  pub rerank_top_n : Option ℕ
  pub visual_required : Bool
  pub rationale : String

pub record AccessScope : Type 0 where
  pub tenant_id : String
  pub user_id : String
  pub role : String
  pub permissions : List String
  pub document_ids : List String
  pub allowed_sources : List String
  pub acl_tags : List String
  pub allowed_fields : List String
