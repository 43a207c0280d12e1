-- ===== src/Planning/Dependencies/Accepted.antt =====
-- contracts.py: what an accepted plan satisfies.
use multi_agent_rag_local.Planning.Dependencies.Processing.{
  process-Progress, Progress, Ordered, tasks_of,
}
use multi_agent_rag_local.Planning.Dependencies.Counting.{Counted, degree_ids}
use multi_agent_rag_local.Planning.Dependencies.{
  are_known, value_error, recursion_error, err, fuel_for, ok, process, validate_dependencies,
  initial_degrees, task_ids, Degrees, are_unique, ready,
}
use multi_agent_rag_local.Domain.{PlannedTask, TaskPlan}
use mathlib.Core.List.{append-nil}
use multi_agent_rag_local.Common.{
  ℕ, false, if◌then◌else◌, Within-full, suc, ap, ◌≢◌, some, length, Within, Distinct, String, ◌≡◌,
  refl, inl, inr, true, List, [], ◌∷◌, arith, eq_iff, eq_refl, nat_eq, Bool-cases, contains,
}

-- An order of all tasks in which the dependencies of each come before it.
abbrev pub Orderable : TaskPlan → Type 0
Orderable plan =
    (order : List String) × Ordered plan.tasks [] order × Within (task_ids plan.tasks) order

degree_ids-initial :
    (tasks : List PlannedTask) → degree_ids (initial_degrees tasks) ≡ task_ids tasks
degree_ids-initial [] = refl
degree_ids-initial (task ∷ rest) = ground (arith, degree_ids-initial rest)

tasks_of-initial : (tasks : List PlannedTask) → tasks_of (initial_degrees tasks) ≡ tasks
tasks_of-initial [] = refl
tasks_of-initial (task ∷ rest) = ground (arith, tasks_of-initial rest)

pub are_unique-Distinct : (ids : List String) → are_unique ids ≡ true → Distinct ids
unfolding are_unique
are_unique-Distinct [] h = tt
are_unique-Distinct (x ∷ xs) h = (ground arith, are_unique-Distinct xs (ground arith))

ready-within :
    (z : String) (degrees : Degrees)
    → contains z (ready degrees) ≡ true
    → contains z (degree_ids degrees) ≡ true
unfolding ready
ready-within z [] h = cc
ready-within z ((task, degree) ∷ rest) h = ground (arith, ready-within z rest)

ready-Distinct : (degrees : Degrees) → Distinct (degree_ids degrees) → Distinct (ready degrees)
unfolding ready
ready-Distinct [] d = tt
ready-Distinct ((task, degree) ∷ rest) (new, d) = elim (Bool-cases (nat_eq degree 0)) [
  | inl e ↦ rw e (ground (arith, ready-within task.task_id rest), ready-Distinct rest d)
  | inr e ↦ rw e (ready-Distinct rest d)
]

initial-Counted :
    (tasks : List PlannedTask) (seen : List String)
    → Distinct (task_ids tasks)
    → ((z : String)
        → contains z (task_ids tasks) ≡ true
        → contains z seen ≡ contains z (ready (initial_degrees tasks)))
    → Counted [] seen (initial_degrees tasks)
unfolding ready
initial-Counted [] seen d f = tt
initial-Counted (task ∷ rest) seen (new, d) f =
    let ids = degree_ids-initial rest in
    (
      omega arith,
      ground (
        arith,
        f task.task_id (ground (arith, eq_refl task.task_id)),
        eq_refl task.task_id,
        ready-within task.task_id (initial_degrees rest),
      ),
      initial-Counted rest seen d
          (λ z h. ground (arith, f z (ground (arith, h)), eq_iff task.task_id z)),
    )

initial-Progress :
    (tasks : List PlannedTask)
    → Distinct (task_ids tasks)
    → Progress tasks [] (ready (initial_degrees tasks)) (initial_degrees tasks)
initial-Progress tasks d = record {
  same_tasks = tasks_of-initial tasks;
  counted = initial-Counted tasks (ready (initial_degrees tasks)) d (λ z h. refl);
  distinct = ready-Distinct (initial_degrees tasks) (rw (degree_ids-initial tasks) d);
  within = λ z h. rw (degree_ids-initial tasks) at (ready-within z (initial_degrees tasks) h);
  ordered = tt;
}

pub length-map_ids : (tasks : List PlannedTask) → length (task_ids tasks) ≡ length tasks
length-map_ids [] = refl
length-map_ids (task ∷ rest) = ap suc (length-map_ids rest)

-- The run of the loop on a plan with unique ids.
pub loop :
    (tasks : List PlannedTask)
    → Distinct (task_ids tasks)
    → (order : List String) × (degrees : Degrees) × (process
          (fuel_for tasks)
          (initial_degrees tasks)
          (ready (initial_degrees tasks))
          0
        ≡ some (length order))
      × Progress tasks order [] degrees
loop tasks d =
    process-Progress tasks (fuel_for tasks) [] (ready (initial_degrees tasks))
      (initial_degrees tasks) d (omega (arith, length-map_ids tasks)) (initial-Progress tasks d)

full :
    (tasks : List PlannedTask) (order : List String) (degrees : Degrees)
    → Progress tasks order [] degrees
    → length order ≡ length tasks
    → Within (task_ids tasks) order
full tasks order degrees p e =
    Within-full order (task_ids tasks) (rw (append-nil order) at p.distinct)
      (rw (append-nil order) at p.within) (omega (arith, e, length-map_ids tasks))

module _ (plan : TaskPlan) where
  repeated :
      are_unique (task_ids plan.tasks) ≡ false
      → validate_dependencies plan ≡ err (value_error "task ids must be unique")
  unfolding validate_dependencies
  repeated e = rw e refl

  unknown :
      are_unique (task_ids plan.tasks) ≡ true
      → are_known (task_ids plan.tasks) plan.tasks ≡ false
      → validate_dependencies plan
        ≡ err (value_error "all task dependencies must be present in the plan")
  unfolding validate_dependencies
  unknown e k = rw (e, k) refl

  pub counted_through :
      (n : ℕ)
      → are_unique (task_ids plan.tasks) ≡ true
      → are_known (task_ids plan.tasks) plan.tasks ≡ true
      → process
          (fuel_for plan.tasks)
          (initial_degrees plan.tasks)
          (ready (initial_degrees plan.tasks))
          0
        ≡ some n
      → validate_dependencies plan ≡ (
          if nat_eq n (length plan.tasks)
          then ok plan
          else err (value_error "task dependencies must be acyclic"))
  unfolding validate_dependencies
  counted_through n e k run = rw (e, k, run) refl

-- The check of a plan never runs out of the fuel of the model.
pub validate_dependencies-ends :
    (plan : TaskPlan) → validate_dependencies plan ≢ err recursion_error
validate_dependencies-ends plan h = elim (Bool-cases (are_unique (task_ids plan.tasks))) [
  | inr e ↦ ground (arith, h, repeated plan e)
  | inl e ↦ elim (Bool-cases (are_known (task_ids plan.tasks) plan.tasks)) [
    | inr k ↦ ground (arith, h, unknown plan e k)
    | inl k ↦
        let (order, degrees, run, p) =
          loop plan.tasks (are_unique-Distinct (task_ids plan.tasks) e) in
        ground (arith, h, counted_through plan (length order) e k run)
  ]
]

-- A plan that is accepted has passed both checks before the loop.
accepted_checks :
    (plan plan' : TaskPlan)
    → validate_dependencies plan ≡ ok plan'
    → (are_unique (task_ids plan.tasks) ≡ true)
      × (are_known (task_ids plan.tasks) plan.tasks ≡ true)
accepted_checks plan plan' h = elim (Bool-cases (are_unique (task_ids plan.tasks))) [
  | inr e ↦ ground (arith, h, repeated plan e)
  | inl e ↦ elim (Bool-cases (are_known (task_ids plan.tasks) plan.tasks)) [
    | inr k ↦ ground (arith, h, unknown plan e k)
    | inl k ↦ (e, k)
  ]
]

-- The dependencies of an accepted plan are tasks of it.
pub accepted_known :
    (plan : TaskPlan)
    → validate_dependencies plan ≡ ok plan
    → are_known (task_ids plan.tasks) plan.tasks ≡ true
accepted_known plan h = (accepted_checks plan plan h).1

-- An accepted plan is the given plan, its ids are without repetition, and its tasks have an order in
-- which the dependencies of each come before it.
pub validate_dependencies-Orderable :
    (plan plan' : TaskPlan)
    → validate_dependencies plan ≡ ok plan'
    → (plan' ≡ plan) × Distinct (task_ids plan.tasks) × Orderable plan
validate_dependencies-Orderable plan plan' h =
    let (e, k) = accepted_checks plan plan' h in
    let d = are_unique-Distinct (task_ids plan.tasks) e in
    let (order, degrees, run, p) = loop plan.tasks d in
    let through = counted_through plan (length order) e k run in
    elim (Bool-cases (nat_eq (length order) (length plan.tasks))) [
      | inl all ↦ (
        ground (arith, h, through),
        d,
        (order, p.ordered, full plan.tasks order degrees p (ground arith)),
      )
      | inr few ↦ ground (arith, h, through)
    ]
