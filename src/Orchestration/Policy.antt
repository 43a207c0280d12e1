-- ===== src/Orchestration/Policy.antt =====
-- app/orchestration/policies.py: which optional stages a route and a plan allow.
use multi_agent_rag_local.Common.{
  String, Bool, true, false, ◌&&◌, Option, none, some, List, [], ◌∷◌, if◌then◌else◌, contains,
}
use multi_agent_rag_local.Domain.{RouteDecision, TaskPlan, effective_route, requires_tools}
use multi_agent_rag_local.Orchestration.Timeout.{Result, ok, err, value_error}

pub record ExecutionPolicy : Type 0 where
  pub require_answer_validation : Bool
  pub require_quality_report : Bool
  pub allow_planning : Bool
  pub allowed_routes : List String

-- `ExecutionPolicy()`
abbrev pub default_policy : ExecutionPolicy
default_policy = record {
  require_answer_validation = false;
  require_quality_report = false;
  allow_planning = true;
  allowed_routes = "vector" ∷ "graph" ∷ "web" ∷ "react" ∷ "hybrid" ∷ [];
}

-- `UnsupportedRouteError` is a `ValueError`.
unfoldable pub validate_route : ExecutionPolicy → RouteDecision → Result (Unit {0})
unfolding effective_route
validate_route p route =
    if contains (effective_route route) p.allowed_routes
    then ok tt
    else err (value_error "unsupported route")

unfoldable pub should_plan : ExecutionPolicy → RouteDecision → Bool
should_plan p route = p.allow_planning && route.requires_plan

unfoldable pub should_run_tools : ExecutionPolicy → RouteDecision → Option TaskPlan → Bool
unfolding requires_tools
should_run_tools p route none = false
should_run_tools p route (some plan) =
    requires_tools plan && contains "tool" route.allowed_capabilities
