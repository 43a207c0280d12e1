-- ===== src/Planning/Dependencies/Processing.antt =====
-- contracts.py: the loop of `validate_dependencies`.
use multi_agent_rag_local.Planning.Dependencies.Counting.{
  relax-Counted, relax-new, met, Counted, degree_ids,
}
use multi_agent_rag_local.Domain.{PlannedTask}
use multi_agent_rag_local.Planning.Dependencies.{process, task_ids, Degrees, relax}
use mathlib.Core.List.{append-nil, append_assoc}
use multi_agent_rag_local.Common.{
  length-Within, ℕ, zero, suc, ◌+◌, ◌<◌, some, length-append, Distinct-left, intersection-full, inl,
  inr, eq_iff, Bool-cases, here, there, Distinct-append, there, Within, Distinct, In, String, ◌≡◌,
  refl, sym, ap, ◌∙◌, true, List, [], ◌∷◌, ◌++◌, arith, length, contains, contains-append,
}

abbrev pub tasks_of : Degrees → List PlannedTask
tasks_of [] = []
tasks_of ((task, degree) ∷ rest) = task ∷ tasks_of rest

degree_ids-tasks_of : (degrees : Degrees) → degree_ids degrees ≡ task_ids (tasks_of degrees)
degree_ids-tasks_of [] = refl
degree_ids-tasks_of ((task, degree) ∷ rest) =
    ap (λ (ids : List String). task.task_id ∷ ids) (degree_ids-tasks_of rest)

tasks_of-relax :
    (current : String) (degrees : Degrees) → tasks_of (relax current degrees).0 ≡ tasks_of degrees
unfolding relax
tasks_of-relax current [] = refl
tasks_of-relax current ((task, degree) ∷ rest) = ground (arith, tasks_of-relax current rest)

module _ (tasks : List PlannedTask) where
  -- In the order, the dependencies of each task come before it.
  abbrev pub Ordered : (earlier order : List String) → Type 0
  Ordered earlier [] = Unit
  Ordered earlier (x ∷ xs) =
      ((task : PlannedTask) → In task tasks → task.task_id ≡ x → Within task.depends_on earlier)
      × Ordered (earlier ++ x ∷ []) xs

  Ordered-append :
      (earlier order : List String) (x : String)
      → Ordered earlier order
      → ((task : PlannedTask)
          → In task tasks
          → task.task_id ≡ x
          → Within task.depends_on (earlier ++ order))
      → Ordered earlier (order ++ x ∷ [])
  Ordered-append earlier [] x o f = (rw (append-nil earlier) at f, tt)
  Ordered-append earlier (y ∷ order) x (g, o) f = (
    g,
    Ordered-append (earlier ++ y ∷ []) order x o
        (rw (sym (append_assoc earlier (y ∷ []) order)) at f),
  )

  -- The loop between two of its rounds.
  pub record Progress (done queue : List String) (degrees : Degrees) : Type 0 where
    pub same_tasks : tasks_of degrees ≡ tasks
    pub counted : Counted done (done ++ queue) degrees
    pub distinct : Distinct (done ++ queue)
    pub within : Within (done ++ queue) (task_ids tasks)
    pub ordered : Ordered [] done

  pub Counted-ready :
      (done seen : List String) (degrees : Degrees) (task : PlannedTask)
      → Counted done seen degrees
      → In task (tasks_of degrees)
      → contains task.task_id seen ≡ true
      → met done task ≡ length task.depends_on
  Counted-ready done seen [] task c i h = elim i [ ]
  Counted-ready done seen ((task, degree) ∷ rest) _ (sum, zero_iff, c) here h = ground arith
  Counted-ready done seen ((other, degree) ∷ rest) task (sum, zero_iff, c) (there i) h =
      Counted-ready done seen rest task c i h

  module _ (current : String) (done queue : List String) (degrees : Degrees)
      (unique : Distinct (task_ids tasks)) (p : Progress done (current ∷ queue) degrees) where
    abbrev more : List String
    more = (relax current degrees).1

    joined : (done ++ current ∷ []) ++ (queue ++ more) ≡ (done ++ current ∷ queue) ++ more
    joined =
        append_assoc done (current ∷ []) (queue ++ more)
        ∙ sym (append_assoc done (current ∷ queue) more)

    ids : degree_ids degrees ≡ task_ids tasks
    ids = degree_ids-tasks_of degrees ∙ ap task_ids p.same_tasks

    Distinct-ids : Distinct (degree_ids degrees)
    Distinct-ids = rw ids unique

    once : Distinct (done ++ current ∷ [])
    once =
        Distinct-left (done ++ current ∷ []) queue
          (rw (append_assoc done (current ∷ []) queue) p.distinct)

    more_within : (z : String) → contains z more ≡ true → contains z (task_ids tasks) ≡ true
    more_within z h =
        let (_, fresh) =
          relax-new current done (done ++ current ∷ queue) degrees Distinct-ids p.counted in
        rw ids at (fresh z h).1

    within' : Within ((done ++ current ∷ queue) ++ more) (task_ids tasks)
    within' z h = elim (Bool-cases (contains z more)) [
      | inl e ↦ more_within z e
      | inr e ↦ p.within z (ground (arith, contains-append z (done ++ current ∷ queue) more))
    ]

    dependencies_done :
        (task : PlannedTask) → In task tasks → task.task_id ≡ current → Within task.depends_on done
    dependencies_done task i e =
        let seen : contains task.task_id (done ++ current ∷ queue) ≡ true = ground (
          arith,
          contains-append task.task_id done (current ∷ queue),
          eq_iff current task.task_id,
        ) in
        intersection-full done task.depends_on (Distinct-left done (current ∷ queue) p.distinct) (
          Counted-ready done (done ++ current ∷ queue) degrees task p.counted (rw p.same_tasks i)
            seen)

    round : Progress (done ++ current ∷ []) (queue ++ more) (relax current degrees).0
    round =
        let seen = done ++ current ∷ queue in
        let (distinct_more, fresh) = relax-new current done seen degrees Distinct-ids p.counted in
        record {
          same_tasks = tasks_of-relax current degrees ∙ p.same_tasks;
          counted = rw joined (
              relax-Counted current done seen (seen ++ more) degrees once Distinct-ids p.counted
                (λ z h. contains-append z seen more));
          distinct =
              rw joined (Distinct-append seen more p.distinct distinct_more (λ z h. (fresh z h).0));
          within = rw joined within';
          ordered = Ordered-append [] done current p.ordered dependencies_done;
        }

  -- The loop ends within the fuel, with an order of the processed tasks.
  pub process-Progress :
      (fuel : ℕ) (done queue : List String) (degrees : Degrees)
      → Distinct (task_ids tasks)
      → length (task_ids tasks) < length done + fuel
      → Progress done queue degrees
      → (order : List String) × (degrees' : Degrees) × (process fuel degrees queue (length done)
          ≡ some (length order))
        × Progress order [] degrees'
  unfolding process
  process-Progress zero done queue degrees unique enough p = absurd (
      omega (
        arith,
        enough,
        length-append done queue,
        length-Within (done ++ queue) (task_ids tasks) p.distinct p.within,
      ))
  process-Progress (suc fuel) done [] degrees unique enough p = (done, degrees, refl, p)
  process-Progress (suc fuel) done (current ∷ queue) degrees unique enough p =
      let longer = length-append done (current ∷ []) in
      let (order, degrees', e, q) =
        process-Progress fuel (done ++ current ∷ []) (queue ++ (relax current degrees).1)
          (relax current degrees).0 unique (omega (arith, enough, longer))
          (round current done queue degrees unique p) in
      (order, degrees', rw longer at e, q)
