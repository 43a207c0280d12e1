-- ===== src/Domain/Request.antt =====
-- app/orchestration/request.py: what the stages read of a request.
use multi_agent_rag_local.Common.{ℕ, Bool, Option, List, String}

pub record RequestActor : Type 0 where
  pub user_id : Option String
  pub tenant_id : Option String
  pub username : Option String
  pub role : Option String
  pub permissions : List String

-- `none` is `None`: nothing was asked for.
pub record RequestScope : Type 0 where
  pub allowed_sources : Option (List String)
  pub document_ids : Option (List String)
  pub acl_tags : Option (List String)
  pub allowed_fields : Option (List String)
  pub agent_class_hint : Option String

pub record OrchestrationRequest : Type 0 where
  pub question : String
  pub profile : String
  pub session_id : Option String
  pub actor : Option RequestActor
  pub source_scope : RequestScope
  pub use_reasoning : Bool
  pub use_web_fallback : Bool
  pub deadline_at : Option ℕ
  pub force_language : String
  pub approval_token : Option String
  pub request_id : Option String
  pub execution_id : Option String
