-- ===== src/Orchestration/Nodes/Entry.antt =====
-- nodes.py: `privacy_permission`, `router`, `planner` and `knowledge`.
use multi_agent_rag_local.Common.{
  ℕ, zero, suc, String, Bool, true, false, Option, none, some, List, [], ◌∷◌, ◌++◌, if◌then◌else◌,
}
use multi_agent_rag_local.Domain.{
  OrchestrationRequest, AccessScope, RouteDecision, RouterDecision, simple, complex, complete,
  incomplete, NextStage, TaskPlan, ContextBundle, ToolResult, PrivacyResult, VerificationDecision,
}
use multi_agent_rag_local.Orchestration.Timeout.{
  Stage, privacy_permission, permission_error, stage_execution, Result, ok, err, Outcome, returned,
  raised,
}
use multi_agent_rag_local.Orchestration.Policy.{validate_route, should_plan, should_run_tools}
use multi_agent_rag_local.Orchestration.Stage.{
  ExecutionEvent, Run, Call, pure, raise, lift, required, ◌>>=◌, run_stage,
}
use multi_agent_rag_local.Orchestration.Services.{Services, Runtime}
use multi_agent_rag_local.Orchestration.Nodes.State.{GraphState}
use multi_agent_rag_local.Orchestration.Nodes.Helpers.{
  scope_to_request_scope, knowledge_hints, timed_out_route, timed_out_strategy,
}

-- The operation of `privacy_permission`: inspect, refuse or resolve, and narrow the request.
unfoldable pub resolved :
    PrivacyResult
    → OrchestrationRequest
    → Result AccessScope
    → Outcome (Option (PrivacyResult × AccessScope × OrchestrationRequest))
unfolding scope_to_request_scope
resolved privacy request (err e) = raised e
resolved privacy request (ok scope) = returned (
    some (
      privacy,
      scope,
      record request {
        question = privacy.text;
        source_scope = scope_to_request_scope scope request;
      },
    ))

unfoldable pub authorize :
    Services → OrchestrationRequest → Call (PrivacyResult × AccessScope × OrchestrationRequest)
unfolding resolved
authorize svc request timeout_ms =
    let privacy = svc.inspect_input request.question in
    record {
      duration = svc.local_time;
      outcome =
          if privacy.blocked
          then raised (permission_error "input privacy inspection blocked the request")
          else resolved privacy request (svc.resolve_scope request.actor request.source_scope);
    }

unfoldable pub privacy_permission_node : Services → GraphState → Run GraphState
unfolding authorize
privacy_permission_node svc s = do
  (result, event) ← run_stage privacy_permission privacy_permission (authorize svc s.request) none
  pure (record s {
    privacy = some result.0;
    permission_scope = some result.1;
    request = result.2;
    trace = s.trace ++ event ∷ [];
  })

abbrev is_empty : List String → Bool
is_empty [] = true
is_empty (_ ∷ _) = false

unfoldable pub router_decision : Runtime → RouteDecision → RouterDecision
router_decision rt route = record {
  intent = route.intent;
  complexity = if route.requires_plan then complex else simple;
  completeness = if is_empty route.clarification_fields then complete else incomplete;
  next_stage = if should_plan rt.policy route then NextStage.planner else NextStage.knowledge;
  knowledge_hints = knowledge_hints route;
  confidence = route.confidence;
  reason = route.reason;
}

unfoldable pub router_node : Runtime → Services → GraphState → Run GraphState
unfolding router_decision
router_node rt svc s = do
  (route, event) ← run_stage Stage.route Stage.route (svc.router s.request) (some timed_out_route)
  _ ← lift (validate_route rt.policy route)
  pure (record s {
    route = some route;
    route_decision = some (router_decision rt route);
    trace = s.trace ++ event ∷ [];
  })

-- The planner's timeout continues with `None`, which no operation of it returns.
abbrev as_optional : Call TaskPlan → Call (Option TaskPlan)
as_optional call timeout_ms =
    let done = call timeout_ms in
    record {
      duration = done.duration;
      outcome = elim done.outcome [
        | returned value ↦ returned (elim value [ none ↦ none | some plan ↦ some (some plan) ])
        | raised e ↦ raised e
      ];
    }

-- Without a plan the update has no such key, and the state keeps what it had.
abbrev keep_plan : Option TaskPlan → Option TaskPlan → Option TaskPlan
keep_plan none old = old
keep_plan (some plan) old = some plan

unfoldable pub planner_node : Services → GraphState → Run GraphState
planner_node svc s = do
  route ← required "route" s.route
  (plan, event) ←
      run_stage Stage.plan Stage.plan (as_optional (svc.planner s.request route)) (some none)
  pure (record s { task_plan = keep_plan plan s.task_plan; trace = s.trace ++ event ∷ [] })

-- `ContextBundle()`
abbrev pub empty_context : ContextBundle
empty_context = record { evidence = []; rendered_context = ""; diagnostics = [] }

-- The feedback of the verifier is handed on only in a retry.
abbrev retry_feedback : ℕ → Option VerificationDecision → Option VerificationDecision
retry_feedback zero verification = none
retry_feedback (suc _) verification = verification

abbrev pub require_scope : Option AccessScope → Run AccessScope
require_scope none =
    raise
      (stage_execution "knowledge" (permission_error "knowledge retrieval requires access scope"))
require_scope (some scope) = pure scope

-- The tools run for a plan that the policy allows them for; otherwise there is no event.
unfoldable pub run_tools :
    Services
    → OrchestrationRequest
    → RouteDecision
    → Option TaskPlan
    → Bool
    → Run (List ToolResult × List ExecutionEvent)
run_tools svc request route (some plan) true = do
  (results, event) ← run_stage Stage.tool Stage.tool (svc.tool_runner request route plan) (some [])
  pure (results, event ∷ [])
run_tools svc request route _ _ = pure ([], [])

unfoldable pub knowledge_node : Runtime → Services → GraphState → Run GraphState
unfolding run_tools
knowledge_node rt svc s = do
  route ← required "route" s.route
  route_decision ← required "route_decision" s.route_decision
  (strategy, strategy_event) ←
      run_stage Stage.knowledge_strategy Stage.knowledge_strategy
        (svc.knowledge_agent s.request route_decision s.task_plan
          (retry_feedback s.retry_count s.verification) s.permission_scope)
        (some (timed_out_strategy s.request.question))
  scope ← require_scope s.permission_scope
  (context, event) ←
      run_stage Stage.knowledge Stage.knowledge
        (svc.retriever s.request route s.task_plan strategy scope) (some empty_context)
  (tool_results, tool_events) ←
      run_tools svc s.request route s.task_plan (should_run_tools rt.policy route s.task_plan)
  pure (record s {
    evidence_bundle = some (record {
      route = some route;
      plan = s.task_plan;
      items = context.evidence;
      citations = [];
      diagnostics = context.diagnostics;
    });
    knowledge_strategy = some strategy;
    context = some context;
    tool_results = tool_results;
    trace = s.trace ++ strategy_event ∷ event ∷ tool_events;
  })
