-- ===== src/Orchestration/Timeout.antt =====
-- app/orchestration/timeout_control.py: the stage ceilings, the execution budget and the runner of
-- one stage. A clock reading is a number of microseconds, so `int(seconds * 1000)` is `/ 1000`.
pub mod Bounds
use multi_agent_rag_local.Common.{
  refl, ap, ◌⊎◌, inl, inr, ℕ, ◌+◌, ◌-◌, ◌*◌, ◌/◌, min, ◌≡◌, Bool, true, false, Option, none, some,
  List, [], ◌∷◌, String, ltb, leb, nat_eq, if◌then◌else◌, ℤ, pos, negsuc, ◌-ℤ◌, min_ℤ, max_zero,
}
use multi_agent_rag_local.Domain.{BudgetStats}
use multi_agent_rag_local.OrderedDict.{OrderedDict, insert}

pub data Stage : Type 0 where
  privacy_permission route plan knowledge_strategy rag knowledge tool synthesize : Stage
  verifier finalize output_filter : Stage
  unlisted : String → Stage

abbrev pub stage_name : Stage → String
stage_name privacy_permission = "privacy_permission"
stage_name route = "route"
stage_name plan = "plan"
stage_name knowledge_strategy = "knowledge_strategy"
stage_name rag = "rag"
stage_name knowledge = "knowledge"
stage_name tool = "tool"
stage_name synthesize = "synthesize"
stage_name verifier = "verifier"
stage_name finalize = "finalize"
stage_name output_filter = "output_filter"
stage_name (unlisted s) = s

-- What a stage, or the code inside it, raises. `timeout_error` is the builtin `TimeoutError`, and
-- `recursion_error` is what LangGraph raises when a run passes its limit.
pub data Error : Type 0 where
  timeout_error : Error
  stage_timeout : Stage → ℕ → ℕ → Error
  stage_execution : String → Error → Error
  recursion_error : Error
  value_error type_error permission_error runtime_error : String → Error

pub data Result {ℓ} (A : Type ℓ) : Type ℓ where
  ok : A → Result A
  err : Error → Result A

abbrev value_or {ℓ} : {A : Type ℓ} → A → Result A → A
value_or d (ok a) = a
value_or d (err e) = d

pub ok-injective {ℓ} : {A : Type ℓ} {a b : A} → ok a ≡ ok b → a ≡ b
ok-injective {a = a} e = ap (value_or a) e

pub err-ne-ok {ℓ} : {A : Type ℓ} {x : Error} {a : A} → err x ≡ ok a → ⊥
err-ne-ok e = cc

pub Result-cases {ℓ} :
    {A : Type ℓ} (r : Result A) → ((a : A) × (r ≡ ok a)) ⊎ ((x : Error) × (r ≡ err x))
Result-cases (ok a) = inl (a, refl)
Result-cases (err x) = inr (x, refl)

infixl 5 ◌>>=◌
abbrev pub ◌>>=◌ {ℓ κ} : {A : Type ℓ} {B : Type κ} → Result A → (A → Result B) → Result B
ok a >>= f = f a
err e >>= f = err e

pub record TimeoutConfig : Type 0 where
  pub total_timeout_ms : ℕ
  pub route_timeout_ms : ℕ
  pub plan_timeout_ms : ℕ
  pub retrieval_timeout_ms : ℕ
  pub tool_timeout_ms : ℕ
  pub synthesis_timeout_ms : ℕ
  pub finalization_timeout_ms : ℕ
  pub overhead_buffer_ms : ℕ

-- The defaults of the dataclass, which are those of `Settings.stage_timeout_*`.
abbrev pub default_config : TimeoutConfig
default_config = record {
  total_timeout_ms = 120_000;
  route_timeout_ms = 8_000;
  plan_timeout_ms = 5_000;
  retrieval_timeout_ms = 15_000;
  tool_timeout_ms = 10_000;
  synthesis_timeout_ms = 30_000;
  finalization_timeout_ms = 8_000;
  overhead_buffer_ms = 2_000;
}

unfoldable pub stage_sum_ms : TimeoutConfig → ℕ
stage_sum_ms c =
    c.route_timeout_ms + c.plan_timeout_ms + c.retrieval_timeout_ms + c.tool_timeout_ms
    + c.synthesis_timeout_ms + c.finalization_timeout_ms + c.overhead_buffer_ms

unfoldable pub retry_round_ms : TimeoutConfig → ℕ
retry_round_ms c = c.retrieval_timeout_ms + c.synthesis_timeout_ms + c.finalization_timeout_ms

-- `from_settings` builds the record and validates it; the record is returned if it passes.
unfoldable pub validate : TimeoutConfig → Result TimeoutConfig
unfolding stage_sum_ms
validate c =
    if ltb c.total_timeout_ms (stage_sum_ms c)
    then err (value_error "stage timeouts exceed the total timeout")
    else ok c

-- `MANDATORY_STAGES`
abbrev pub is_mandatory : Stage → Bool
is_mandatory privacy_permission = true
is_mandatory output_filter = true
is_mandatory _ = false

-- `-n`, as an integer
abbrev negate : ℕ → ℤ
negate n = if nat_eq n 0 then pos 0 else negsuc (n - 1)

-- `deadline_offset_ms`: `int` truncates towards zero. Instants are microseconds in UTC.
unfoldable pub deadline_offset_ms : Option ℕ → ℕ → Option ℤ
deadline_offset_ms none now = none
deadline_offset_ms (some moment) now =
    some (if leb now moment then pos ((moment - now) / 1000) else negate ((now - moment) / 1000))

pub record ExecutionBudget : Type 0 where
  pub config : TimeoutConfig
  pub start_time : ℕ
  pub stage_times : OrderedDict ℕ
  pub deadline_offset : Option ℤ

-- `ExecutionBudget.__init__`: the wall clock is read once, and `perf_counter` from then on.
unfoldable pub new_budget : TimeoutConfig → Option ℕ → (wall now : ℕ) → ExecutionBudget
unfolding deadline_offset_ms
new_budget c deadline_at wall now = record {
  config = c;
  start_time = now;
  stage_times = [];
  deadline_offset = deadline_offset_ms deadline_at wall;
}

unfoldable pub elapsed_ms : ExecutionBudget → ℕ → ℕ
elapsed_ms b now = (now - b.start_time) / 1000

-- The caller's deadline narrows what remains, if there is one.
abbrev narrow : Option ℤ → ℕ → ℤ → ℤ
narrow none elapsed remaining = remaining
narrow (some offset) elapsed remaining = min_ℤ remaining (offset -ℤ pos elapsed)

unfoldable pub remaining_ms : ExecutionBudget → ℕ → ℕ
unfolding elapsed_ms ◌-ℤ◌
remaining_ms b now =
    let elapsed = elapsed_ms b now in
    max_zero (narrow b.deadline_offset elapsed (pos b.config.total_timeout_ms -ℤ pos elapsed))

unfoldable pub has_budget : ExecutionBudget → ℕ → ℕ → Bool
has_budget b now required_ms = leb required_ms (remaining_ms b now)

unfoldable pub check_budget : Stage → ExecutionBudget → ℕ → Result (Unit {0})
check_budget stage b now =
    if is_mandatory stage
    then ok tt
    else if leb (remaining_ms b now) 0
    then err (stage_timeout stage b.config.total_timeout_ms (elapsed_ms b now))
    else ok tt

unfoldable pub record_stage : Stage → ℕ → ExecutionBudget → ExecutionBudget
record_stage stage duration_ms b = record b {
  stage_times = insert (stage_name stage) duration_ms b.stage_times;
}

-- The table `stage_timeouts`, with the default of its `get`.
abbrev pub stage_ceiling : TimeoutConfig → Stage → ℕ
stage_ceiling c privacy_permission = c.finalization_timeout_ms
stage_ceiling c route = c.route_timeout_ms
stage_ceiling c plan = c.plan_timeout_ms
stage_ceiling c knowledge_strategy = c.plan_timeout_ms
stage_ceiling c rag = c.retrieval_timeout_ms
stage_ceiling c knowledge = c.retrieval_timeout_ms
stage_ceiling c tool = c.tool_timeout_ms
stage_ceiling c synthesize = c.synthesis_timeout_ms
stage_ceiling c verifier = c.finalization_timeout_ms
stage_ceiling c finalize = c.finalization_timeout_ms
stage_ceiling c output_filter = c.finalization_timeout_ms
stage_ceiling c (unlisted _) = 5000

unfoldable pub get_stage_timeout : Stage → ExecutionBudget → ℕ → ℕ
get_stage_timeout stage b now =
    let ceiling = stage_ceiling b.config stage in
    if is_mandatory stage then ceiling else min ceiling (remaining_ms b now)

-- `get_stats`, at one reading of the clock; the source reads it three times.
unfoldable pub get_stats : ExecutionBudget → ℕ → BudgetStats
get_stats b now = record {
  total_elapsed_ms = elapsed_ms b now;
  total_budget_ms = b.config.total_timeout_ms;
  caller_deadline_ms = b.deadline_offset;
  remaining_ms = remaining_ms b now;
  stage_times = b.stage_times;
  budget_utilization = (elapsed_ms b now, b.config.total_timeout_ms);
}

-- How an awaited operation ends: after `duration` microseconds it returns or raises.
pub data Outcome {ℓ} (A : Type ℓ) : Type ℓ where
  returned : A → Outcome A
  raised : Error → Outcome A

pub record Completion {ℓ} (A : Type ℓ) : Type ℓ where
  pub duration : ℕ
  pub outcome : Outcome A

-- An operation under `asyncio.timeout`, which is given the ceiling in milliseconds. Expiry shows as
-- `raised timeout_error`, as `asyncio.timeout` raises it.
abbrev pub Operation {ℓ} : Type ℓ → Type ℓ
Operation A = ℕ → Completion A

-- The two `except` clauses, of `stage_timeout` and of `run_with_timeout`.
abbrev pub translate {ℓ} : {A : Type ℓ} → Stage → ℕ → ℕ → Outcome A → Result A
translate stage timeout_ms elapsed (returned a) = ok a
translate stage timeout_ms elapsed (raised timeout_error) =
    err (stage_timeout stage timeout_ms elapsed)
translate stage timeout_ms elapsed (raised (stage_timeout s t e)) = err (stage_timeout s t e)
translate stage timeout_ms elapsed (raised e) = err (stage_execution (stage_name stage) e)

-- The budget and the clock after the stage come back beside the result. The body of the `with`
-- block runs only behind `check_budget`, and `finally` records the stage on every path out of it.
unfoldable pub run_stage_body {ℓ} :
    {A : Type ℓ} → Stage → Operation A → ExecutionBudget → ℕ → Result A × ExecutionBudget × ℕ
unfolding get_stage_timeout record_stage
run_stage_body stage operation b now =
    let timeout_ms = get_stage_timeout stage b now in
    let done = operation timeout_ms in
    let elapsed = done.duration / 1000 in
    (
      translate stage timeout_ms elapsed done.outcome,
      record_stage stage elapsed b,
      now + done.duration,
    )

unfoldable pub run_with_timeout {ℓ} :
    {A : Type ℓ} → Stage → Operation A → ExecutionBudget → ℕ → Result A × ExecutionBudget × ℕ
run_with_timeout stage operation b now = elim (check_budget stage b now) [
  | ok _ ↦ run_stage_body stage operation b now
  | err e ↦ (err e, b, now)
]
