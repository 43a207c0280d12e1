-- ===== src/Planning/Layers/Cover.antt =====
-- contracts.py: the layers of a plan that has been accepted.
use multi_agent_rag_local.Planning.Dependencies.Accepted.{
  accepted_known, validate_dependencies-Orderable,
}
use multi_agent_rag_local.Orchestration.Timeout.{ok}
use multi_agent_rag_local.Planning.Dependencies.Acyclic.{are_known-Within, contains-task}
use multi_agent_rag_local.Planning.Layers.Earlier.{
  layers_from-Layered, Layered, ready_ids-In, contains-id, contains-ready_ids,
}
use multi_agent_rag_local.Planning.Dependencies.{validate_dependencies, task_ids, are_known}
use multi_agent_rag_local.Domain.{TaskPlan, PlannedTask}
use multi_agent_rag_local.Planning.Layers.{
  execution_layers, pop_ready, layers_from, ready_ids, is_ready,
}
use multi_agent_rag_local.Planning.Dependencies.Processing.{Ordered}
use mathlib.Core.Bool.{false≢true}
use mathlib.Core.List.{append-nil, append_assoc}
use multi_agent_rag_local.Common.{
  filter-In, filter-shorter, not, In, Within, ℕ, zero, suc, ◌≤◌, String, ◌≡◌, refl, sym, ◌∙◌, ◌⊎◌,
  inl, inr, true, false, List, [], ◌∷◌, ◌++◌, arith, eq_iff, eq_refl, nat_eq, Bool-cases, length,
  filter, contains, subset, contains-append,
}

abbrev pub joined_layers : List (List String) → List String
joined_layers [] = []
joined_layers (layer ∷ layers) = layer ++ joined_layers layers

no_elements : (xs : List String) → nat_eq (length xs) 0 ≡ true → xs ≡ []
no_elements [] h = refl
no_elements (x ∷ xs) h = absurd (ground (arith, h))

some_element :
    (xs : List String) → nat_eq (length xs) 0 ≡ false → (z : String) × (contains z xs ≡ true)
some_element [] h = absurd (ground (arith, h))
some_element (x ∷ xs) h = (x, ground (arith, eq_refl x))

Within-subset : (xs ys : List String) → Within xs ys → subset xs ys ≡ true
Within-subset [] ys w = refl
Within-subset (x ∷ xs) ys w =
    ground
      (arith, w x (ground (arith, eq_refl x)), Within-subset xs ys (λ z h. w z (ground (arith, h))))

-- A task whose dependencies are completed is ready.
ready-contains :
    (completed : List String) (remaining : List PlannedTask) (task : PlannedTask)
    → In task remaining
    → Within task.depends_on completed
    → contains task.task_id (ready_ids completed remaining) ≡ true
unfolding is_ready
ready-contains completed remaining task i w =
    contains-ready_ids task.task_id completed remaining
    ∙ contains-id task (filter (is_ready completed) remaining) (
        filter-In (is_ready completed) remaining task i (Within-subset task.depends_on completed w))

module _ (tasks : List PlannedTask) (known : are_known (task_ids tasks) tasks ≡ true) where
  -- Every task is completed or remains.
  abbrev Partition : (completed : List String) (remaining : List PlannedTask) → Type 0
  Partition completed remaining =
      (task : PlannedTask)
      → In task tasks
      → (contains task.task_id completed ≡ true) ⊎ In task remaining

  -- If nothing is ready, what comes in an order of the tasks is completed.
  stuck :
      (completed : List String) (remaining : List PlannedTask) (earlier order : List String)
      → ready_ids completed remaining ≡ []
      → Partition completed remaining
      → Ordered tasks earlier order
      → ((z : String)
          → contains z earlier ≡ true
          → contains z (task_ids tasks) ≡ true
          → contains z completed ≡ true)
      → (z : String) → contains z (earlier ++ order) ≡ true
      → contains z (task_ids tasks) ≡ true
      → contains z completed ≡ true
  stuck completed remaining earlier [] none_ready part o w z h k =
      w z (rw (append-nil earlier) at h) k
  stuck completed remaining earlier (x ∷ order) none_ready part (g, o) w z h k =
      stuck completed remaining (earlier ++ x ∷ []) order none_ready part o
        (λ v i j. elim (Bool-cases (contains v earlier)) [
          | inl e ↦ w v e j
          | inr e ↦
              let (task, within, same) = contains-task v tasks j in
              let last : x ≡ v = ground (arith, contains-append v earlier (x ∷ []), eq_iff x v) in
              elim (part task within) [
                | inl done ↦ rw same at done
                | inr remains ↦
                    let ready_now = ready-contains completed remaining task remains (λ u d.
                      w u (g task within (same ∙ sym last) u d)
                        (are_known-Within (task_ids tasks) tasks task known within u d)) in
                    absurd (false≢true (rw none_ready at ready_now))
              ]
        ])
        z (rw (append_assoc earlier (x ∷ []) order) h) k

  -- One round keeps the partition.
  advance-Partition :
      (completed : List String) (remaining : List PlannedTask) (ids : List String)
      → Partition completed remaining
      → Partition (completed ++ ids) (pop_ready ids remaining)
  unfolding pop_ready
  advance-Partition completed remaining ids part task i = elim (part task i) [
    | inl done ↦ inl (ground (arith, contains-append task.task_id completed ids, done))
    | inr remains ↦ elim (Bool-cases (contains task.task_id ids)) [
      | inl e ↦ inl (ground (arith, contains-append task.task_id completed ids, e))
      | inr e ↦ inr (
          filter-In (λ (t : PlannedTask). not (contains t.task_id ids)) remaining task remains
            (ground (arith, e)))
    ]
  ]

  layers_from-covers :
      (order : List String)
      → Ordered tasks [] order
      → Within (task_ids tasks) order
      → (fuel : ℕ) (remaining : List PlannedTask) (completed : List String)
      → length remaining ≤ fuel
      → Partition completed remaining
      → (task : PlannedTask) → In task tasks
      → contains task.task_id (completed ++ joined_layers (layers_from fuel remaining completed))
        ≡ true
  unfolding layers_from pop_ready
  layers_from-covers order o c zero [] completed h part task i = elim (part task i) [
    | inl done ↦ rw (append-nil completed) done
    | inr remains ↦ elim remains [ ]
  ]
  layers_from-covers order o c zero (_ ∷ _) completed h part task i = absurd (omega (arith, h))
  layers_from-covers order o c (suc fuel) [] completed h part task i = elim (part task i) [
    | inl done ↦ rw (append-nil completed) done
    | inr remains ↦ elim remains [ ]
  ]
  layers_from-covers order o c (suc fuel) (first ∷ others) completed h part task i =
      let remaining = first ∷ others in
      let ids = ready_ids completed remaining in
      elim (Bool-cases (nat_eq (length ids) 0)) [
        | inl e ↦
            let all =
              stuck completed remaining [] order (no_elements ids e) part o (λ z h k. cc)
                task.task_id (c task.task_id (contains-id task tasks i))
                (contains-id task tasks i) in
            rw (e, append-nil completed) all
        | inr e ↦
            let (z, inside) = some_element ids e in
            let (found, j, same, w) = ready_ids-In z completed remaining inside in
            let shorter =
              filter-shorter (λ (t : PlannedTask). not (contains t.task_id ids)) remaining found j
                (rw (same, inside) refl) in
            let rest =
              layers_from-covers order o c fuel (pop_ready ids remaining) (completed ++ ids)
                (omega (arith, shorter, h)) (advance-Partition completed remaining ids part) task
                i in
            rw
              (
                e,
                ← append_assoc completed ids
                    (joined_layers (layers_from fuel (pop_ready ids remaining) (completed ++ ids))),
              )
              rest
      ]

-- The layers of an accepted plan name every task of it, and the dependencies of each task of a layer
-- are in the layers before it.
pub execution_layers-Layered :
    (plan : TaskPlan)
    → validate_dependencies plan ≡ ok plan
    → Layered plan.tasks [] (execution_layers plan)
      × ((task : PlannedTask)
          → In task plan.tasks
          → contains task.task_id (joined_layers (execution_layers plan)) ≡ true)
unfolding execution_layers
execution_layers-Layered plan h =
    let (same, distinct, (order, o, c)) = validate_dependencies-Orderable plan plan h in
    (
      layers_from-Layered plan.tasks (length plan.tasks) plan.tasks [] distinct (λ task i. i),
      layers_from-covers plan.tasks (accepted_known plan h) order o c (length plan.tasks) plan.tasks
          [] (omega arith) (λ task i. inr i),
    )
