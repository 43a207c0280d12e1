-- ===== src/Query/Guard/Limits.antt =====
-- guard.py: the limits of the guard under every interleaving.
use multi_agent_rag_local.Query.Guard.Slots.{broken, Reachable-Balanced, holds, waits, runs, total}
use multi_agent_rag_local.Query.Guard.{
  Reachable, stats, Shared, Phase, Queries, QueryLoadGuard, running, done, semaphore_error, refused,
}
use multi_agent_rag_local.Common.{
  In, ℕ, ◌≤◌, String, ◌≡◌, refl, ◌≢◌, Bool, true, false, [], ◌∷◌, arith, All, here, there,
}

running_holds : (phase : Phase) → runs phase ≤ holds phase
running_holds phase = elim phase as (λ p. runs p ≤ holds p) [
  | running ↦ omega arith
  | _ ↦ omega arith
]

runs-holds : (queries : Queries) → total runs queries ≤ total holds queries
runs-holds [] = omega arith
runs-holds ((user, phase) ∷ rest) = omega (arith, running_holds phase, runs-holds rest)

-- A query that has left the guard.
abbrev pub is_over : Phase → Bool
is_over done = true
is_over (refused _) = true
is_over _ = false

abbrev pub Over : Queries → Type 0
Over = All (λ (query : String × Phase). is_over query.1 ≡ true)

over_counts :
    (phase : Phase)
    → is_over phase ≡ true
    → (holds phase ≡ 0) × (runs phase ≡ 0) × (waits phase ≡ 0)
over_counts phase =
    elim phase as (λ p. is_over p ≡ true → (holds p ≡ 0) × (runs p ≡ 0) × (waits p ≡ 0)) [
      | done ↦ λ e. (refl, refl, refl)
      | refused r ↦ λ e. (refl, refl, refl)
      | _ ↦ λ e. cc
    ]

total-Over :
    (f : Phase → ℕ) (queries : Queries)
    → ((phase : Phase) → is_over phase ≡ true → f phase ≡ 0)
    → Over queries
    → total f queries ≡ 0
total-Over f [] h o = refl
total-Over f ((user, phase) ∷ rest) h (e, o) = omega (arith, h phase e, total-Over f rest h o)

total-In :
    (f : Phase → ℕ) (queries : Queries) (user : String) (phase : Phase)
    → In (user, phase) queries
    → f phase ≤ total f queries
total-In f [] user phase i = elim i [ ]
total-In f ((user, phase) ∷ rest) _ _ here = omega arith
total-In f ((u, p) ∷ rest) user phase (there i) = omega (arith, total-In f rest user phase i)

module _ (guard : QueryLoadGuard) (queries : Queries) (s : Shared) where
  -- In every state that an interleaving of queries reaches, at most `max_concurrent` queries run and at
  -- most `max_waiting` are counted as waiting, and `stats` reports exactly these two numbers.
  pub Reachable-limits :
      Reachable guard queries s
      → (total runs queries ≤ guard.max_concurrent)
        × (total waits queries ≤ guard.max_waiting)
        × ((stats guard s).inflight ≡ total runs queries)
        × ((stats guard s).waiting ≡ total waits queries)
  unfolding stats
  Reachable-limits r =
      let b = Reachable-Balanced guard queries s r in
      (
        omega (arith, b.permits, runs-holds queries),
        omega (arith, b.waiting, b.queue),
        b.inflight,
        b.waiting,
      )

  -- When every query has left, by finishing or by a refusal, all permits are back and both counters
  -- are 0.
  pub Reachable-Over :
      Reachable guard queries s
      → Over queries
      → (s.permits ≡ guard.max_concurrent) × (s.waiting ≡ 0) × (s.inflight ≡ 0)
  Reachable-Over r o =
      let b = Reachable-Balanced guard queries s r in
      (
        omega (arith, b.permits, total-Over holds queries (λ p e. (over_counts p e).0) o),
        omega (arith, b.waiting, total-Over waits queries (λ p e. (over_counts p e).2) o),
        omega (arith, b.inflight, total-Over runs queries (λ p e. (over_counts p e).1) o),
      )

  -- No query of a reachable state has released the semaphore above its initial value.
  pub Reachable-released :
      (user : String) (phase : Phase)
      → Reachable guard queries s
      → In (user, phase) queries
      → phase ≢ semaphore_error
  Reachable-released user phase r i e =
      let b = Reachable-Balanced guard queries s r in
      let one : broken phase ≡ 1 = rw e refl in
      omega (arith, one, b.nothing_wrong, total-In broken queries user phase i)
