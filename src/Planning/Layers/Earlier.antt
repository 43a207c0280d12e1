-- ===== src/Planning/Layers/Earlier.antt =====
-- contracts.py: the tasks of a layer depend on earlier layers only.
use mathlib.Core.Bool.{false≢true}
use multi_agent_rag_local.Planning.Dependencies.Acyclic.{contains-task}
use multi_agent_rag_local.Planning.Dependencies.{task_ids}
use multi_agent_rag_local.Domain.{PlannedTask}
use multi_agent_rag_local.Planning.Layers.{
  pop_ready, layers_from, is_ready, place_text, ready_ids, sort_texts,
}
use multi_agent_rag_local.Common.{
  subset-Within, In-filter, Within, Distinct, In, ℕ, zero, suc, String, ◌≡◌, refl, sym, ◌∙◌, inl,
  inr, true, not, ◌||◌, List, [], ◌∷◌, ◌++◌, arith, ◌==◌, eq_refl, nat_eq, Bool-cases, length,
  filter, contains, here, there,
}

contains-place_text :
    (z x : String) (ys : List String) → contains z (place_text x ys) ≡ (x == z || contains z ys)
unfolding place_text
contains-place_text z x [] = ground arith
contains-place_text z x (y ∷ ys) = ground (arith, contains-place_text z x ys)

contains-sort_texts : (z : String) (xs : List String) → contains z (sort_texts xs) ≡ contains z xs
unfolding sort_texts
contains-sort_texts z [] = refl
contains-sort_texts z (x ∷ xs) =
    ground (arith, contains-place_text z x (sort_texts xs), contains-sort_texts z xs)

pub contains-ready_ids :
    (z : String) (completed : List String) (remaining : List PlannedTask)
    → contains z (ready_ids completed remaining)
      ≡ contains z (task_ids (filter (is_ready completed) remaining))
unfolding ready_ids
contains-ready_ids z completed remaining =
    contains-sort_texts z (task_ids (filter (is_ready completed) remaining))

-- A ready id is that of a task whose dependencies are completed.
pub ready_ids-In :
    (z : String) (completed : List String) (remaining : List PlannedTask)
    → contains z (ready_ids completed remaining) ≡ true
    → (task : PlannedTask) × In task remaining
      × (task.task_id ≡ z)
      × Within task.depends_on completed
unfolding is_ready
ready_ids-In z completed remaining h =
    let (task, i, e) =
      contains-task z (filter (is_ready completed) remaining)
        (sym (contains-ready_ids z completed remaining) ∙ h) in
    let (j, r) = In-filter (is_ready completed) remaining i in
    (task, j, e, subset-Within task.depends_on completed r)

pub contains-id :
    (task : PlannedTask) (tasks : List PlannedTask)
    → In task tasks
    → contains task.task_id (task_ids tasks) ≡ true
contains-id task [] i = elim i [ ]
contains-id _ (task ∷ tasks) here = ground (arith, eq_refl task.task_id)
contains-id task (other ∷ tasks) (there i) = ground (arith, contains-id task tasks i)

-- Two tasks of a plan with unique ids that have the same id are the same.
pub same_task :
    (tasks : List PlannedTask) (a b : PlannedTask)
    → Distinct (task_ids tasks)
    → In a tasks
    → In b tasks
    → a.task_id ≡ b.task_id
    → a ≡ b
same_task [] a b d i j e = elim i [ ]
same_task (task ∷ tasks) _ _ d here here e = refl
same_task (task ∷ tasks) _ b (new, d) here (there j) e =
    absurd (false≢true (sym new ∙ rw e (contains-id b tasks j)))
same_task (task ∷ tasks) a _ (new, d) (there i) here e =
    absurd (false≢true (sym new ∙ rw (sym e) (contains-id a tasks i)))
same_task (task ∷ tasks) a b (new, d) (there i) (there j) e = same_task tasks a b d i j e

module _ (tasks : List PlannedTask) where
  -- The dependencies of every task of a layer are in the layers before it.
  abbrev pub Layered : (earlier : List String) → List (List String) → Type 0
  Layered earlier [] = Unit
  Layered earlier (layer ∷ layers) =
      ((task : PlannedTask)
        → In task tasks
        → contains task.task_id layer ≡ true
        → Within task.depends_on earlier)
      × Layered (earlier ++ layer) layers

  pub layers_from-Layered :
      (fuel : ℕ) (remaining : List PlannedTask) (completed : List String)
      → Distinct (task_ids tasks)
      → ((task : PlannedTask) → In task remaining → In task tasks)
      → Layered completed (layers_from fuel remaining completed)
  unfolding layers_from pop_ready
  layers_from-Layered zero remaining completed d f = tt
  layers_from-Layered (suc fuel) [] completed d f = tt
  layers_from-Layered (suc fuel) (first ∷ others) completed d f =
      let remaining = first ∷ others in
      let ids = ready_ids completed remaining in
      let rest =
        layers_from-Layered fuel (pop_ready ids remaining) (completed ++ ids) d
          (λ t i. f t (In-filter (λ task. not (contains task.task_id ids)) remaining i).0) in
      elim (Bool-cases (nat_eq (length ids) 0)) [
        | inl e ↦ rw e tt
        | inr e ↦ rw e (
          (λ task i h.
              let (other, j, same, w) = ready_ids-In task.task_id completed remaining h in
              rw (same_task tasks task other d i (f other j) (sym same)) w),
          rest,
        )
      ]
