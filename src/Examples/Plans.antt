-- ===== src/Examples/Plans.antt =====
-- Plans, queries at the guard and login states, at small inputs.
use multi_agent_rag_local.Planning.Layers.Cover.{execution_layers-Layered, joined_layers}
use multi_agent_rag_local.Planning.Layers.{layers_from, execution_layers}
use multi_agent_rag_local.Planning.Layers.Earlier.{Layered}
use multi_agent_rag_local.Planning.Dependencies.Acyclic.{validate_dependencies-iff_Orderable}
use multi_agent_rag_local.Orchestration.Timeout.{recursion_error, ok, err, value_error}
use multi_agent_rag_local.Planning.Dependencies.{task_ids, relax}
use multi_agent_rag_local.Security.RateLimiter.{is_limited, new_limiter, trim, record_attempt}
use multi_agent_rag_local.OrderedDict.{lookup, insert}
use multi_agent_rag_local.Planning.Dependencies.Accepted.{
  validate_dependencies-Orderable, validate_dependencies-ends, Orderable,
}
use multi_agent_rag_local.Auth.OauthState.Bounded.{store_memory-length}
use multi_agent_rag_local.Auth.OauthState.Consumed.{consume_state-store_state, consume_state_again}
use multi_agent_rag_local.Auth.OauthState.{
  max_memory_entries, store_memory, store_state, consume_state, Json, OauthStore,
}
use multi_agent_rag_local.Query.Guard.Limits.{Reachable-limits, Reachable-Over}
use multi_agent_rag_local.Query.Guard.Slots.{waits, runs, total}
use multi_agent_rag_local.Planning.Dependencies.{are_known, are_unique, validate_dependencies}
use multi_agent_rag_local.Domain.{PlannedTask, TaskPlan}
use multi_agent_rag_local.Common.{
  Distinct, arith, length, In, contains, ◌≢◌, ℕ, zero, suc, ◌+◌, ◌*◌, ◌≤◌, String, ◌≡◌, refl, ◌↔◌,
  inl, true, false, none, some, List, [], ◌∷◌, ◌==◌, leb, if◌then◌else◌, pos, max_zero,
}
use multi_agent_rag_local.OrderedDict.{lookup}
use multi_agent_rag_local.Query.Guard.{
  stats, Shared, new_guard, new_shared, Phase, QueryLoadGuard, Reachable, advance, arrived,
  recorded, start, arrive, act,
}

abbrev task : String → List String → PlannedTask
task id depends_on = record {
  task_id = id;
  prompt = "p";
  depends_on = depends_on;
  parallel_group = none;
  knowledge_required = true;
  tool_required = false;
}

abbrev two_tasks : TaskPlan
two_tasks = record { tasks = task "b" ("a" ∷ []) ∷ task "a" [] ∷ []; plan_fallback_reason = none }

validate_dependencies-iff_Orderable_example :
    (validate_dependencies two_tasks ≡ ok two_tasks) ↔ Orderable two_tasks
unfolding are_unique are_known
validate_dependencies-iff_Orderable_example =
    validate_dependencies-iff_Orderable two_tasks refl refl ((refl, tt), (tt, tt))

validate_dependencies-Orderable_example :
    (two_tasks ≡ two_tasks) × Distinct (task_ids two_tasks.tasks) × Orderable two_tasks
unfolding validate_dependencies relax
validate_dependencies-Orderable_example = validate_dependencies-Orderable two_tasks two_tasks refl

validate_dependencies-ends_example : validate_dependencies two_tasks ≢ err recursion_error
validate_dependencies-ends_example = validate_dependencies-ends two_tasks

execution_layers-Layered_example :
    Layered two_tasks.tasks [] (execution_layers two_tasks)
    × ((t : PlannedTask)
        → In t two_tasks.tasks
        → contains t.task_id (joined_layers (execution_layers two_tasks)) ≡ true)
unfolding validate_dependencies relax
execution_layers-Layered_example = execution_layers-Layered two_tasks refl

execution_layers_test : execution_layers two_tasks ≡ ("a" ∷ []) ∷ ("b" ∷ []) ∷ []
unfolding execution_layers layers_from
execution_layers_test = refl

-- A task that names its dependency twice is taken for one in a cycle.
abbrev repeated_dependency : TaskPlan
repeated_dependency = record {
  tasks = task "a" [] ∷ task "b" ("a" ∷ "a" ∷ []) ∷ [];
  plan_fallback_reason = none;
}

repeated_dependency_test :
    validate_dependencies repeated_dependency
    ≡ err (value_error "task dependencies must be acyclic")
unfolding validate_dependencies relax
repeated_dependency_test = refl

abbrev toy_guard : QueryLoadGuard
toy_guard = new_guard (pos 1) (pos 60) (pos 1) (pos 1) (pos 5)

-- One query on its own, after some actions.
run : ℕ → Phase × Shared
run zero = (arrived, new_shared toy_guard)
run (suc n) = let (phase, s) = run n in advance toy_guard 0 false "u" phase s

run-Reachable : (n : ℕ) → Reachable toy_guard (("u", (run n).0) ∷ []) (run n).1
unfolding run
run-Reachable zero = arrive [] (new_shared toy_guard) "u" start
run-Reachable (suc n) = act [] [] "u" (run n).0 (run n).1 0 false (run-Reachable n)

Reachable-limits_example :
    (total runs (("u", (run 4).0) ∷ []) ≤ toy_guard.max_concurrent)
    × (total waits (("u", (run 4).0) ∷ []) ≤ toy_guard.max_waiting)
    × ((stats toy_guard (run 4).1).inflight ≡ total runs (("u", (run 4).0) ∷ []))
    × ((stats toy_guard (run 4).1).waiting ≡ total waits (("u", (run 4).0) ∷ []))
Reachable-limits_example =
    Reachable-limits toy_guard (("u", (run 4).0) ∷ []) (run 4).1 (run-Reachable 4)

Reachable-Over_example :
    ((run 6).1.permits ≡ toy_guard.max_concurrent)
    × ((run 6).1.waiting ≡ 0)
    × ((run 6).1.inflight ≡ 0)
unfolding run advance new_shared new_guard is_limited new_limiter trim lookup
Reachable-Over_example =
    Reachable-Over toy_guard (("u", (run 6).0) ∷ []) (run 6).1 (run-Reachable 6) (refl, tt)

-- The limit is one query a minute for each user; two queries of one user that are both checked before
-- either is recorded are both let through.
two_checked : Phase × Phase
unfolding advance
two_checked =
    let (a, s) = advance toy_guard 0 false "u" arrived (new_shared toy_guard) in
    let (b, s') = advance toy_guard 0 false "u" arrived s in
    let (c, s'') = advance toy_guard 0 false "u" a s' in
    (c, (advance toy_guard 0 false "u" b s'').0)

two_checked_test : two_checked ≡ (recorded, recorded)
unfolding two_checked advance new_shared new_guard is_limited new_limiter trim lookup insert
    record_attempt
two_checked_test = refl

abbrev toy_json : Json
toy_json = record { dumps = λ payload. "{}"; loads = λ text. none }

abbrev toy_states : OauthStore Unit
toy_states = record { memory = ("s", (10, ("ip", "1.2.3.4") ∷ [])) ∷ []; redis = tt }

consume_state_again_example :
    (consume_state toy_json none 6 "s" "1.2.3.4"
      (consume_state toy_json none 5 "s" "1.2.3.4" toy_states).1).0
    ≡ (some "invalid_state", none)
consume_state_again_example =
    consume_state_again toy_json none 5 6 "s" "1.2.3.4" "1.2.3.4" toy_states (inl refl)

consume_state-store_state_example :
    (consume_state toy_json none 20 "n" "1.2.3.4"
      (store_state toy_json none 10 "n" (("ip", "1.2.3.4") ∷ []) (pos 300) toy_states)).0
    ≡ (if leb (10 + max_zero (pos 300) * 1_000_000) 20 then (some "invalid_state", none) else (
      if "1.2.3.4" == "1.2.3.4" then none else some "security_check_failed",
      some "1.2.3.4",
    ))
unfolding lookup
consume_state-store_state_example =
    consume_state-store_state toy_json 10 20 "n" "1.2.3.4" "1.2.3.4" (("ip", "1.2.3.4") ∷ [])
      (pos 300) toy_states refl refl

store_memory-length_example :
    length (store_memory 20 "n" (("ip", "1.2.3.4") ∷ []) (pos 300) toy_states.memory)
    ≤ max_memory_entries
store_memory-length_example =
    store_memory-length 20 "n" (("ip", "1.2.3.4") ∷ []) (pos 300) toy_states.memory (omega arith)
