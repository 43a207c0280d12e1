-- ===== src/Planning/Layers.antt =====
-- app/domain/contracts.py, `TaskPlan.execution_layers`. The dict `remaining` is the list of the tasks in
-- it, since the ids of a plan have been found unique.
use multi_agent_rag_local.Planning.Dependencies.{task_ids}
use multi_agent_rag_local.Domain.{PlannedTask, TaskPlan}
use multi_agent_rag_local.Common.{
  ℕ, zero, suc, String, Bool, not, List, [], ◌∷◌, ◌++◌, nat_eq, if◌then◌else◌, length, filter,
  contains, subset,
}
use Prim.Native.Nat.{Ordering}
use Prim.Native.String.{compare}
pub mod Earlier
pub mod Cover

-- `sorted`, on texts
unfoldable pub place_text : String → List String → List String
place_text x [] = x ∷ []
place_text x (y ∷ ys) =
    let rest = place_text x ys in elim (compare y x) [ Ordering.lt ↦ y ∷ rest | _ ↦ x ∷ y ∷ ys ]

unfoldable pub sort_texts : List String → List String
unfolding place_text
sort_texts [] = []
sort_texts (x ∷ xs) = place_text x (sort_texts xs)

unfoldable pub is_ready : (completed : List String) → PlannedTask → Bool
is_ready completed task = subset task.depends_on completed

unfoldable pub ready_ids : (completed : List String) → (remaining : List PlannedTask) → List String
unfolding sort_texts is_ready
ready_ids completed remaining = sort_texts (task_ids (filter (is_ready completed) remaining))

-- `remaining.pop`, for each ready id
unfoldable pub pop_ready : (ids : List String) → List PlannedTask → List PlannedTask
pop_ready ids remaining = filter (λ task. not (contains task.task_id ids)) remaining

-- `while remaining`, on fuel
unfoldable pub layers_from :
    ℕ → (remaining : List PlannedTask) → (completed : List String) → List (List String)
unfolding ready_ids pop_ready
layers_from zero remaining completed = []
layers_from (suc fuel) [] completed = []
layers_from (suc fuel) (task ∷ tasks) completed =
    let ids = ready_ids completed (task ∷ tasks) in
    let rest = layers_from fuel (pop_ready ids (task ∷ tasks)) (completed ++ ids) in
    if nat_eq (length ids) 0 then [] else ids ∷ rest

unfoldable pub execution_layers : TaskPlan → List (List String)
unfolding layers_from
execution_layers plan = layers_from (length plan.tasks) plan.tasks []
