-- ===== src/Planning/Dependencies/Acyclic.antt =====
-- contracts.py: which plans are accepted.
use mathlib.Core.List.{append-nil, append_assoc}
use multi_agent_rag_local.Planning.Dependencies.Accepted.{
  length-map_ids, counted_through, loop, are_unique-Distinct, validate_dependencies-Orderable,
  Orderable,
}
use multi_agent_rag_local.Planning.Dependencies.Processing.{Ordered, Progress, tasks_of}
use multi_agent_rag_local.Planning.Dependencies.Counting.{met, Counted}
use multi_agent_rag_local.Planning.Dependencies.{
  ok, validate_dependencies, are_unique, task_ids, Degrees, are_known,
}
use multi_agent_rag_local.Domain.{PlannedTask, TaskPlan}
use multi_agent_rag_local.Common.{
  In-All, length-append, contains-intersection, length-Within, contains-In, subset-Within, In-map,
  Within, Distinct, In, ◌≤◌, String, ◌≡◌, sym, ◌∙◌, ◌↔◌, inl, inr, true, List, [], ◌∷◌, ◌++◌, arith,
  eq_iff, Bool-cases, length, contains, intersection, contains-append, All, here, there,
}

-- No task names a dependency twice.
abbrev pub SetDependencies : List PlannedTask → Type 0
SetDependencies = All (λ task. Distinct task.depends_on)

-- A task whose dependencies are done is done.
Counted-done :
    (done seen : List String) (degrees : Degrees) (task : PlannedTask)
    → Counted done seen degrees
    → In task (tasks_of degrees)
    → length task.depends_on ≤ met done task
    → contains task.task_id seen ≡ true
Counted-done done seen [] task c i h = elim i [ ]
Counted-done done seen ((task, degree) ∷ rest) _ (sum, zero_iff, c) here h = ground arith
Counted-done done seen ((other, degree) ∷ rest) task (sum, zero_iff, c) (there i) h =
    Counted-done done seen rest task c i h

met-full :
    (done : List String) (task : PlannedTask)
    → Distinct task.depends_on
    → Within task.depends_on done
    → length task.depends_on ≤ met done task
met-full done task d w =
    length-Within task.depends_on (intersection done task.depends_on) d
      (λ z h. ground (arith, contains-intersection z done task.depends_on, w z h))

pub contains-task :
    (x : String) (tasks : List PlannedTask)
    → contains x (task_ids tasks) ≡ true
    → (task : PlannedTask) × In task tasks × (task.task_id ≡ x)
contains-task x tasks h =
    In-map (λ (task : PlannedTask). task.task_id) tasks (contains-In x (task_ids tasks) h)

pub are_known-Within :
    (ids : List String) (tasks : List PlannedTask) (task : PlannedTask)
    → are_known ids tasks ≡ true
    → In task tasks
    → Within task.depends_on ids
unfolding are_known
are_known-Within ids [] task k i = elim i [ ]
are_known-Within ids (task ∷ rest) _ k here = subset-Within task.depends_on ids (ground arith)
are_known-Within ids (other ∷ rest) task k (there i) =
    are_known-Within ids rest task (ground arith) i

module _ (tasks : List PlannedTask) (done : List String) (degrees : Degrees)
    (known : are_known (task_ids tasks) tasks ≡ true) (sets : SetDependencies tasks)
    (p : Progress tasks done [] degrees) where
  -- What comes in an order of the tasks has been processed.
  done-Ordered :
      (earlier order : List String)
      → Ordered tasks earlier order
      → ((z : String)
          → contains z earlier ≡ true
          → contains z (task_ids tasks) ≡ true
          → contains z done ≡ true)
      → (z : String) → contains z (earlier ++ order) ≡ true
      → contains z (task_ids tasks) ≡ true
      → contains z done ≡ true
  done-Ordered earlier [] o w z h k = w z (rw (append-nil earlier) at h) k
  done-Ordered earlier (x ∷ order) (g, o) w z h k =
      done-Ordered (earlier ++ x ∷ []) order o
        (λ v i j. elim (Bool-cases (contains v earlier)) [
          | inl e ↦ w v e j
          | inr e ↦
              let (task, within, same) = contains-task v tasks j in
              let last : x ≡ v = ground (arith, contains-append v earlier (x ∷ []), eq_iff x v) in
              let met_all =
                met-full done task
                  (In-All (λ (t : PlannedTask). Distinct t.depends_on) tasks task sets within)
                  (λ u d.
                    w u (g task within (same ∙ sym last) u d)
                      (are_known-Within (task_ids tasks) tasks task known within u d)) in
              rw (append-nil done, same) at
                (Counted-done done (done ++ []) degrees task p.counted (rw p.same_tasks within)
                  met_all)
        ])
        z (rw (append_assoc earlier (x ∷ []) order) h) k

-- A plan with unique ids, whose dependencies are tasks of the plan, and in which no task names a
-- dependency twice, is accepted exactly when its tasks have an order in which the dependencies of
-- each come before it.
pub validate_dependencies-iff_Orderable :
    (plan : TaskPlan)
    → are_unique (task_ids plan.tasks) ≡ true
    → are_known (task_ids plan.tasks) plan.tasks ≡ true
    → SetDependencies plan.tasks
    → (validate_dependencies plan ≡ ok plan) ↔ Orderable plan
validate_dependencies-iff_Orderable plan e k s = (
  λ h. (validate_dependencies-Orderable plan plan h).2,
  λ (order, ordered, covers).
      let tasks = plan.tasks in
      let d = are_unique-Distinct (task_ids tasks) e in
      let (done, degrees, run, p) = loop tasks d in
      let all = length-Within (task_ids tasks) done d (λ z h.
        done-Ordered tasks done degrees k s p [] order ordered (λ v i j. cc) z (covers z h) h) in
      let few = length-Within (done ++ []) (task_ids tasks) p.distinct p.within in
      let same : length done ≡ length tasks =
        omega (arith, all, few, length-map_ids tasks, length-append done []) in
      ground (arith, counted_through plan (length done) e k run, same),
)
