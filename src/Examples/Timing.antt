-- ===== src/Examples/Timing.antt =====
-- timeout_control.py on concrete budgets.
use multi_agent_rag_local.Orchestration.Timeout.Bounds.{run_with_timeout-deadline}
use multi_agent_rag_local.Examples.Fixtures.{toy_budget}
use multi_agent_rag_local.Orchestration.Timeout.{
  timeout_error, Stage, raised, Operation, elapsed_ms, run_with_timeout, remaining_ms,
}
use multi_agent_rag_local.Common.{◌-ℤ◌, ℕ, ◌*◌, ◌≤◌, refl, arith, ◌≡◌}

-- The caller's deadline leaves 55 seconds after 5.
remaining_ms_test : remaining_ms toy_budget 5_000_000 ≡ 55_000
unfolding remaining_ms elapsed_ms ◌-ℤ◌
remaining_ms_test = refl

abbrev slow : Operation ℕ
slow timeout_ms = record { duration = timeout_ms * 1000; outcome = raised timeout_error }

spent : remaining_ms toy_budget 61_000_000 ≡ 0
unfolding remaining_ms elapsed_ms ◌-ℤ◌
spent = refl

run_with_timeout-deadline_example :
    (run_with_timeout Stage.tool slow toy_budget 55_000_000).2 ≤ 120_001_000
run_with_timeout-deadline_example =
    run_with_timeout-deadline Stage.tool slow toy_budget 55_000_000 0 refl (omega arith)
      (λ t. omega arith)
