-- ===== src/Planning/Dependencies.antt =====
-- app/domain/contracts.py, `TaskPlan.validate_dependencies`: Kahn's algorithm over the tasks of a plan.
-- The dict `in_degree` has one key for each task, since the ids have been found unique, so it is a list
-- of the tasks with their degrees. A degree stops at 0 here where Python goes on below: the code asks
-- only whether a degree reaches 0 by a decrement, and that is a degree of 1 before it.
use multi_agent_rag_local.Orchestration.Timeout.{ok, recursion_error, value_error, err, Result}
use multi_agent_rag_local.Domain.{PlannedTask, TaskPlan}
use multi_agent_rag_local.Common.{
  ℕ, zero, suc, ◌+◌, ◌-◌, String, Bool, true, not, ◌&&◌, Option, none, some, List, [], ◌∷◌, ◌++◌,
  map, nat_eq, if◌then◌else◌, length, contains, subset,
}
pub mod Counting
pub mod Processing
pub mod Accepted
pub mod Acyclic

abbrev pub Degrees : Type 0
Degrees = List (PlannedTask × ℕ)

abbrev pub task_ids : List PlannedTask → List String
task_ids = map (λ (task : PlannedTask). task.task_id)

-- `len(task_ids) != len(tasks)`, for the set of the ids.
unfoldable pub are_unique : List String → Bool
are_unique [] = true
are_unique (x ∷ xs) = not (contains x xs) && are_unique xs

unfoldable pub are_known : List String → List PlannedTask → Bool
are_known ids [] = true
are_known ids (task ∷ rest) = subset task.depends_on ids && are_known ids rest

abbrev pub initial_degrees : List PlannedTask → Degrees
initial_degrees = map (λ (task : PlannedTask). (task, length task.depends_on))

unfoldable pub ready : Degrees → List String
ready [] = []
ready ((task, degree) ∷ rest) =
    let later = ready rest in if nat_eq degree 0 then task.task_id ∷ later else later

-- The loop over the tasks that depend on the current one: the new degrees, and what is appended to
-- the queue.
unfoldable pub relax : String → Degrees → Degrees × List String
relax current [] = ([], [])
relax current ((task, degree) ∷ rest) =
    let (rest', more) = relax current rest in
    if contains current task.depends_on
    then ((task, degree - 1) ∷ rest', if nat_eq degree 1 then task.task_id ∷ more else more)
    else ((task, degree) ∷ rest', more)

-- `while queue`, on fuel: the number of tasks that were processed.
unfoldable pub process : ℕ → Degrees → List String → ℕ → Option ℕ
process zero degrees queue processed = none
process (suc fuel) degrees [] processed = some processed
process (suc fuel) degrees (current ∷ queue) processed =
    let (degrees', more) = relax current degrees in
    process fuel degrees' (queue ++ more) (processed + 1)

abbrev pub fuel_for : List PlannedTask → ℕ
fuel_for tasks = length tasks + 1

unfoldable pub validate_dependencies : TaskPlan → Result TaskPlan
unfolding are_unique are_known ready process
validate_dependencies plan =
    let tasks = plan.tasks in
    let ids = task_ids tasks in
    let degrees = initial_degrees tasks in
    if not (are_unique ids)
    then err (value_error "task ids must be unique")
    else if not (are_known ids tasks)
    then err (value_error "all task dependencies must be present in the plan")
    else elim (process (fuel_for tasks) degrees (ready degrees) 0) [
      | none ↦ err recursion_error
      | some processed ↦
          if nat_eq processed (length tasks)
          then ok plan
          else err (value_error "task dependencies must be acyclic")
    ]
