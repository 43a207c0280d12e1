-- ===== src/Orchestration/Timeout/Bounds.antt =====
-- timeout_control.py: what the execution budget promises about time.
use multi_agent_rag_local.Common.{
  ℕ, ◌+◌, ◌-◌, ◌*◌, ◌/◌, ◌≤◌, ◌<◌, min, max, ◌≡◌, ◌↔◌, refl, true, false, Option, none, some, arith,
  ℤ, pos, negsuc, ◌-ℤ◌, inl, inr, Bool-cases, ◌⊎◌, pos_part,
}
use multi_agent_rag_local.Orchestration.Timeout.{
  Stage, stage_timeout, ok, err, is_mandatory, ExecutionBudget, elapsed_ms, remaining_ms,
  check_budget, stage_ceiling, get_stage_timeout, Operation, translate, run_stage_body,
  run_with_timeout, record_stage, narrow,
}

-- What is left of a total, under a deadline that can only narrow it.
abbrev pub left : ℕ → Option ℤ → ℕ → ℕ
left total none elapsed = total - elapsed
left total (some offset) elapsed = min (total - elapsed) (pos_part offset - elapsed)

narrow_lem :
    (total elapsed : ℕ) (offset : Option ℤ)
    → pos_part (narrow offset elapsed (pos total -ℤ pos elapsed)) ≡ left total offset elapsed
unfolding ◌-ℤ◌
narrow_lem total elapsed none = ground arith
narrow_lem total elapsed (some (pos n)) = ground arith
narrow_lem total elapsed (some (negsuc n)) = ground arith

-- What remains is the configured total less the time elapsed, cut at zero; with a deadline of the
-- caller's it is the smaller of that and the deadline's offset less the time elapsed, cut at zero.
pub remaining_ms_lem :
    (b : ExecutionBudget) (now : ℕ)
    → remaining_ms b now ≡ left b.config.total_timeout_ms b.deadline_offset (elapsed_ms b now)
unfolding remaining_ms
remaining_ms_lem b now = narrow_lem b.config.total_timeout_ms (elapsed_ms b now) b.deadline_offset

left-le : (total elapsed : ℕ) (offset : Option ℤ) → left total offset elapsed ≤ total - elapsed
left-le total elapsed none = omega arith
left-le total elapsed (some d) = omega arith

pub remaining-le :
    (b : ExecutionBudget) (now : ℕ)
    → remaining_ms b now ≤ b.config.total_timeout_ms - elapsed_ms b now
remaining-le b now =
    rw remaining_ms_lem (left-le b.config.total_timeout_ms (elapsed_ms b now) b.deadline_offset)

-- As the clock goes on, what remains never grows.
pub remaining_antitone :
    (b : ExecutionBudget) (now later : ℕ) → now ≤ later → remaining_ms b later ≤ remaining_ms b now
unfolding remaining_ms elapsed_ms
remaining_antitone b now later h = ground arith

-- The gate lets a stage pass exactly when it is a security boundary or some budget remains.
check_budget_iff :
    (stage : Stage) (b : ExecutionBudget) (now : ℕ)
    → (check_budget stage b now ≡ ok tt) ↔ ((is_mandatory stage ≡ true) ⊎ (0 < remaining_ms b now))
unfolding check_budget
check_budget_iff stage b now = elim (Bool-cases (is_mandatory stage)) [
  | inl m ↦ rw m ((λ _. inl refl), (λ _. refl))
  | inr m ↦ rw m ((λ h. inr (ground arith)), (λ h. ground arith))
]

-- Where it does not, it raises `StageTimeoutError` with the total and the time elapsed.
pub check_budget-cases :
    (stage : Stage) (b : ExecutionBudget) (now : ℕ)
    → (check_budget stage b now ≡ ok tt)
      ⊎ ((is_mandatory stage ≡ false)
          × (remaining_ms b now ≡ 0)
          × (check_budget stage b now
              ≡ err (stage_timeout stage b.config.total_timeout_ms (elapsed_ms b now))))
unfolding check_budget
check_budget-cases stage b now = ground arith

remaining_of_pass :
    (stage : Stage) (b : ExecutionBudget) (now : ℕ)
    → is_mandatory stage ≡ false
    → check_budget stage b now ≡ ok tt
    → 0 < remaining_ms b now
unfolding check_budget
remaining_of_pass stage b now m pass = ground arith

pub check_budget_spent :
    (stage : Stage) (b : ExecutionBudget) (now : ℕ)
    → is_mandatory stage ≡ false
    → remaining_ms b now ≡ 0
    → check_budget stage b now
      ≡ err (stage_timeout stage b.config.total_timeout_ms (elapsed_ms b now))
unfolding check_budget
check_budget_spent stage b now m spent = rw (m, spent)

-- A stage that is no security boundary is given no more than its ceiling and no more than remains.
pub get_stage_timeout-le :
    (stage : Stage) (b : ExecutionBudget) (now : ℕ)
    → is_mandatory stage ≡ false
    → (get_stage_timeout stage b now ≤ stage_ceiling b.config stage)
      × (get_stage_timeout stage b now ≤ remaining_ms b now)
unfolding get_stage_timeout
get_stage_timeout-le stage b now m = rw m (omega arith, omega arith)

module _ {ℓ} {A : Type ℓ} where
  -- Once the budget is spent, a stage that is no security boundary is not started: it raises
  -- `StageTimeoutError`, no time passes and nothing is recorded.
  pub run_with_timeout_spent :
      (stage : Stage) (operation : Operation A) (b : ExecutionBudget) (now : ℕ)
      → is_mandatory stage ≡ false
      → remaining_ms b now ≡ 0
      → run_with_timeout stage operation b now
        ≡ (err (stage_timeout stage b.config.total_timeout_ms (elapsed_ms b now)), b, now)
  unfolding run_with_timeout
  run_with_timeout_spent stage operation b now m spent =
      rw (check_budget_spent stage b now m spent, run_with_timeout)

  -- A security boundary runs under its own ceiling at any time, however little remains.
  pub run_with_timeout_mandatory :
      (stage : Stage) (operation : Operation A) (b : ExecutionBudget) (now : ℕ)
      → is_mandatory stage ≡ true
      → let done = operation (stage_ceiling b.config stage) in
        run_with_timeout stage operation b now ≡ (
          translate stage (stage_ceiling b.config stage) (done.duration / 1000) done.outcome,
          record_stage stage (done.duration / 1000) b,
          now + done.duration,
        )
  unfolding run_with_timeout run_stage_body
  run_with_timeout_mandatory stage operation b now m =
      rw ((check_budget_iff stage b now).1 (inl m), run_with_timeout) (rw (m, get_stage_timeout))

  body-deadline :
      (stage : Stage) (operation : Operation A) (b : ExecutionBudget) (now slack : ℕ)
      → is_mandatory stage ≡ false
      → 0 < remaining_ms b now
      → b.start_time ≤ now
      → ((t : ℕ) → (operation t).duration ≤ t * 1000 + slack)
      → (run_stage_body stage operation b now).2
        ≤ max now (b.start_time + b.config.total_timeout_ms * 1000 + 1000 + slack)
  unfolding run_stage_body elapsed_ms
  body-deadline stage operation b now slack m left_over h obeys =
      let t = get_stage_timeout stage b now in
      omega (arith, obeys t, (get_stage_timeout-le stage b now m).1, remaining-le b now)

  -- Where no operation outlives its ceiling by more than `slack`, a stage that is no security
  -- boundary ends within the total budget, up to a millisecond and the slack, or takes no time.
  pub run_with_timeout-deadline :
      (stage : Stage) (operation : Operation A) (b : ExecutionBudget) (now slack : ℕ)
      → is_mandatory stage ≡ false
      → b.start_time ≤ now
      → ((t : ℕ) → (operation t).duration ≤ t * 1000 + slack)
      → (run_with_timeout stage operation b now).2
        ≤ max now (b.start_time + b.config.total_timeout_ms * 1000 + 1000 + slack)
  unfolding run_with_timeout
  run_with_timeout-deadline stage operation b now slack m h obeys =
      elim (check_budget-cases stage b now) [
        | inl pass ↦
            rw (pass, run_with_timeout)
              (body-deadline stage operation b now slack m (remaining_of_pass stage b now m pass) h
                obeys)
        | inr (_, _, stop) ↦ rw (stop, run_with_timeout) (omega arith)
      ]
