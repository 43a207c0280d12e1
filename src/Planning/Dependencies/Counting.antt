-- ===== src/Planning/Dependencies/Counting.antt =====
-- contracts.py: what a degree counts while tasks are processed.
-- How many of its dependencies are done, for a task.
use multi_agent_rag_local.Planning.Dependencies.{Degrees, relax}
use multi_agent_rag_local.Domain.{PlannedTask}
use multi_agent_rag_local.Common.{
  length-intersection, inl, inr, Bool-cases, ◌||◌, ◌==◌, eq_iff, eq_refl, Distinct, ℕ, ◌+◌, String,
  ◌≡◌, refl, true, false, List, [], ◌∷◌, ◌++◌, arith, nat_eq, if◌then◌else◌, length, contains,
  intersection,
}

abbrev pub met : List String → PlannedTask → ℕ
met done task = length (intersection done task.depends_on)

-- Every degree is the number of dependencies less those that are done, and a task is done or in the
-- queue exactly when its degree is 0.
abbrev pub Counted : (done seen : List String) → Degrees → Type 0
Counted done seen [] = Unit
Counted done seen ((task, degree) ∷ rest) =
    (degree + met done task ≡ length task.depends_on)
    × (contains task.task_id seen ≡ nat_eq degree 0)
    × Counted done seen rest

abbrev pub degree_ids : Degrees → List String
degree_ids [] = []
degree_ids ((task, degree) ∷ rest) = task.task_id ∷ degree_ids rest

pub degree_ids-relax :
    (current : String) (degrees : Degrees)
    → degree_ids (relax current degrees).0 ≡ degree_ids degrees
unfolding relax
degree_ids-relax current [] = refl
degree_ids-relax current ((task, degree) ∷ rest) = ground (arith, degree_ids-relax current rest)

not_appended :
    (id : String) (more ids seen : List String)
    → contains id ids ≡ false
    → ((z : String) → contains z more ≡ true → (contains z seen ≡ false) × (contains z ids ≡ true))
    → contains id more ≡ false
not_appended id more ids seen new fresh = elim (Bool-cases (contains id more)) [
  | inl h ↦ ground (arith, (fresh id h).1)
  | inr h ↦ h
]

prepend :
    (id : String) (more ids seen : List String)
    → contains id seen ≡ false
    → contains id ids ≡ false
    → Distinct more
    → ((z : String) → contains z more ≡ true → (contains z seen ≡ false) × (contains z ids ≡ true))
    → Distinct (id ∷ more)
      × ((z : String)
          → contains z (id ∷ more) ≡ true
          → (contains z seen ≡ false) × (contains z (id ∷ ids) ≡ true))
prepend id more ids seen unseen new distinct fresh = (
  (not_appended id more ids seen new fresh, distinct),
  λ z h. elim (Bool-cases (id == z)) [
    | inl same ↦ ground (arith, eq_iff id z)
    | inr other ↦ ground (arith, fresh z (rw other at h))
  ],
)

-- What is appended is new, and without repetition.
pub relax-new :
    (current : String) (done seen : List String) (degrees : Degrees)
    → Distinct (degree_ids degrees)
    → Counted done seen degrees
    → Distinct (relax current degrees).1
      × ((z : String)
          → contains z (relax current degrees).1 ≡ true
          → (contains z seen ≡ false) × (contains z (degree_ids degrees) ≡ true))
unfolding relax
relax-new current done seen [] d c = (tt, λ z h. cc)
relax-new current done seen ((task, degree) ∷ rest) (new, d) (sum, zero_iff, c) =
    let (distinct, fresh) = relax-new current done seen rest d c in
    elim (Bool-cases (contains current task.depends_on)) [
      | inr independent ↦ rw independent (distinct, λ z h. ground (arith, fresh z h))
      | inl depends ↦ elim (Bool-cases (nat_eq degree 1)) [
        | inr other ↦ rw (depends, other) (distinct, λ z h. ground (arith, fresh z h))
        | inl last ↦
            rw (depends, last)
              (prepend task.task_id (relax current rest).1 (degree_ids rest) seen (ground arith) new
                distinct fresh)
      ]
    ]

met-step :
    (current : String) (done : List String) (task : PlannedTask)
    → met (done ++ current ∷ []) task
      ≡ (if contains current task.depends_on then met done task + 1 else met done task)
met-step current [] task = ground arith
met-step current (x ∷ done) task = ground (arith, met-step current done task)

apart_ids :
    (x z : String) (xs : List String)
    → contains x xs ≡ false
    → contains z xs ≡ true
    → (x == z) ≡ false
apart_ids x z xs h k = ground (arith, eq_iff x z)

head_id :
    (task : PlannedTask) (ids : List String) → contains task.task_id (task.task_id ∷ ids) ≡ true
head_id task ids = ground (arith, eq_refl task.task_id)

-- After the loop the degrees are counted with the current task done, and the appended ones seen.
pub relax-Counted :
    (current : String) (done seen seen' : List String) (degrees : Degrees)
    → Distinct (done ++ current ∷ [])
    → Distinct (degree_ids degrees)
    → Counted done seen degrees
    → ((z : String)
        → contains z (degree_ids degrees) ≡ true
        → contains z seen' ≡ (contains z seen || contains z (relax current degrees).1))
    → Counted (done ++ current ∷ []) seen' (relax current degrees).0
unfolding relax
relax-Counted current done seen seen' [] once d c f = tt
relax-Counted current done seen seen' ((task, degree) ∷ rest) once (new, d) (sum, zero_iff, c) f =
    let (distinct, fresh) = relax-new current done seen rest d c in
    let unappended =
      not_appended task.task_id (relax current rest).1 (degree_ids rest) seen new fresh in
    let step = met-step current done task in
    let fits = length-intersection (done ++ current ∷ []) task.depends_on once in
    elim (Bool-cases (contains current task.depends_on)) [
      | inr independent ↦ rw independent (
        ground (arith, step),
        ground (arith, f task.task_id (head_id task (degree_ids rest))),
        relax-Counted current done seen seen' rest once d c
            λ z h. ground (arith, f z (ground (arith, h))),
      )
      | inl depends ↦ elim (Bool-cases (nat_eq degree 1)) [
        | inr other ↦ rw depends (
          ground (arith, step, fits),
          ground (arith, step, fits, f task.task_id (head_id task (degree_ids rest))),
          relax-Counted current done seen seen' rest once d c
              λ z h. ground (arith, f z (ground (arith, h))),
        )
        | inl last ↦ rw depends (
          ground (arith, step),
          ground (arith, f task.task_id (head_id task (degree_ids rest)), eq_refl task.task_id),
          relax-Counted current done seen seen' rest once d c λ z h.
              ground
                (arith, f z (ground (arith, h)), apart_ids task.task_id z (degree_ids rest) new h),
        )
      ]
    ]
