-- ===== src/Examples/Fixtures.antt =====
-- A small deployment: one authorized and one foreign document, and agents that answer at once.
use multi_agent_rag_local.Orchestration.Policy.{default_policy}
use Prim.Native.String.{◌++◌ as append}
use multi_agent_rag_local.Orchestration.Nodes.{timed_out_strategy, timed_out_route}
use multi_agent_rag_local.Orchestration.Timeout.{ok, default_config, returned, ExecutionBudget}
use multi_agent_rag_local.Orchestration.Services.{Runtime, Services}
use multi_agent_rag_local.Orchestration.Stage.{Call, World}
use multi_agent_rag_local.Domain.{
  validated, EvidenceLayer, EvidenceRef, AccessScope, ContextBundle, EvidenceBundle, EvidenceItem,
  FinalAnswer, OrchestrationRequest, VerificationDecision, VerificationState,
}
use multi_agent_rag_local.Privacy.Dlp.{Redactor}
use multi_agent_rag_local.Synthesizer.Citations.{citation, marker, Piece, Shown, TextTools}
use multi_agent_rag_local.Common.{
  ℕ, zero, suc, String, true, false, none, some, List, [], ◌∷◌, ◌==◌, nat_eq, if◌then◌else◌, pos,
}

abbrev pub shown_text : List Shown → String
shown_text [] = ""
shown_text (Shown.words w ∷ out) = append w (shown_text out)
shown_text (citation n ∷ out) = append "[n]" (shown_text out)

-- Every text reads as a sentence with two markers.
abbrev pub toy_tools : TextTools
toy_tools = record {
  pieces = λ text. Piece.words text ∷ marker 1 ∷ marker 2 ∷ marker 1 ∷ [];
  print = shown_text;
  path_name = λ source. source;
  decimal = λ n. if nat_eq n 1 then "1" else "n";
  heading = λ language. "References";
  strip_lower = λ text. text;
  has_chinese = λ text. false;
}

abbrev pub toy_redactor : Redactor
toy_redactor = record {
  inspect_text = λ text. (text, 0);
  sanitize_answer = λ text. if text == "secret" then ("***", 1) else (text, 0);
}

abbrev document : String → String → EvidenceItem
document id name = record {
  item_id = id;
  content = "the bolt takes 5 Nm";
  source = name;
  document_id = name;
  version = none;
  page = some 1;
  chunk_id = none;
  image_id = none;
  artifact_uri = none;
  layer = EvidenceLayer.evidence;
  acl_tags = [];
  retriever = "vector";
  score = none;
  conflict_group = none;
}

abbrev pub own_item : EvidenceItem
own_item = document "e1" "manual.pdf"

abbrev pub foreign_item : EvidenceItem
foreign_item = document "e2" "salaries.pdf"

abbrev pub toy_scope : AccessScope
toy_scope = record {
  tenant_id = "t";
  user_id = "u";
  role = "viewer";
  permissions = [];
  document_ids = "manual.pdf" ∷ [];
  allowed_sources = "manual.pdf" ∷ [];
  acl_tags = [];
  allowed_fields = "content" ∷ [];
}

abbrev pub toy_request : OrchestrationRequest
toy_request = record {
  question = "how tight?";
  profile = "default";
  session_id = none;
  actor = some (record {
    user_id = some "u";
    tenant_id = some "t";
    username = none;
    role = some "viewer";
    permissions = [];
  });
  source_scope = record {
    allowed_sources = none;
    document_ids = none;
    acl_tags = none;
    allowed_fields = none;
    agent_class_hint = none;
  };
  use_reasoning = false;
  use_web_fallback = false;
  deadline_at = none;
  force_language = "en";
  approval_token = none;
  request_id = none;
  execution_id = none;
}

abbrev pub reply {ℓ} : {A : Type ℓ} → A → Call A
reply a timeout_ms = record { duration = 2000; outcome = returned (some a) }

abbrev reference : EvidenceItem → EvidenceRef
reference item = record {
  document_id = item.document_id;
  version = item.version;
  page = item.page;
  chunk_id = item.chunk_id;
  image_id = item.image_id;
}

abbrev pub verdict : VerificationState → VerificationDecision
verdict status = record {
  status = status;
  unsupported_claims = [];
  citation_errors = [];
  conflicts = [];
  missing_aspects = [];
  retry_query = none;
}

abbrev pub toy_context : ContextBundle
toy_context = record {
  evidence = own_item ∷ foreign_item ∷ [];
  rendered_context = "";
  diagnostics = [];
}

-- The first answer is sent back for another round.
abbrev first_retries : ℕ → VerificationDecision
first_retries zero = verdict VerificationState.retry_retrieval
first_retries (suc _) = verdict VerificationState.approved

abbrev pub toy_bundle : EvidenceBundle
toy_bundle = record {
  route = some timed_out_route;
  plan = none;
  items = own_item ∷ foreign_item ∷ [];
  citations = [];
  diagnostics = [];
}

abbrev pub toy_answer : FinalAnswer
toy_answer = record {
  answer = "5 Nm";
  citations = [];
  route = timed_out_route;
  evidence = toy_bundle;
  cited_evidence = [];
  evidence_ids = "e1" ∷ "e2" ∷ [];
  tool_results = [];
  unresolved_items = [];
  conflict_notes = [];
  execution_summary = "";
  validation = record { state = validated; approved = true; method = "verifier"; issues = [] };
  safety = [];
  execution_metadata = [];
}

abbrev pub toy_services : Services
toy_services = record {
  router = λ request. reply timed_out_route;
  planner = λ request route. reply (record { tasks = []; plan_fallback_reason = none });
  knowledge_agent =
      λ request decision plan feedback scope. reply (timed_out_strategy request.question);
  retriever = λ request route plan strategy scope. reply toy_context;
  tool_runner = λ request route plan. reply [];
  synthesizer = λ request route plan evidence results. reply toy_answer;
  candidate_synthesizer = some λ request context results skill. reply (record {
    text = "5 Nm";
    citations = reference own_item ∷ reference foreign_item ∷ [];
    unresolved_items = [];
  });
  verifier = some λ request context candidate retry_count. reply (first_retries retry_count);
  finalizer = none;
  inspect_input =
      λ text. record { text = text; redaction_count = 0; blocked = false; degraded = false };
  resolve_scope = λ actor wanted. ok toy_scope;
  redactor = toy_redactor;
  tools = toy_tools;
  local_time = 10;
}

abbrev pub toy_runtime : Runtime
toy_runtime = record { policy = default_policy; max_verifier_retries = 3 }

abbrev pub toy_budget : ExecutionBudget
toy_budget = record {
  config = default_config;
  start_time = 0;
  stage_times = [];
  deadline_offset = some (pos 60_000);
}

abbrev pub toy_world : World
toy_world = record { clock = 0; budget = toy_budget; reported = []; feedback = [] }
