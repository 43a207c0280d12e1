-- ===== src/Orchestration/Workflow/Bounded.antt =====
-- workflow.py: the number of nodes that a run visits.
use multi_agent_rag_local.Orchestration.Nodes.Retry.{
  concluded, again, output_filter-Same, verifier-Verified, synthesizer-Same, knowledge-Same,
  planner-Same, router-Same, Same, Verified, privacy_permission-count,
}
use multi_agent_rag_local.Common.{
  ltb, leb, ◌≤◌, sym, ap, ◌∙◌, Bool, true, false, ◌&&◌, if◌then◌else◌, arith, ℕ, ◌+◌, ◌-◌, ◌*◌, ◌<◌,
  ◌≡◌, refl, Option, none, some,
}
use multi_agent_rag_local.Orchestration.Post.{
  Ensures, AnyError, Ensures-pure, Ensures-bind, Ensures-read,
}
use mathlib.Core.Bool.{false≢true}
use mathlib.Core.Option.{some-injective}
use multi_agent_rag_local.Orchestration.Workflow.{
  wants_retry, VerificationDecision, entry_of, NextStage, retry_limit, Services, GraphState,
  Runtime, Node, visit, next, step, after_verifier, after_router,
}

-- The number of nodes still to visit, this one included, at most: each retry has three.
abbrev pub visits_left : ℕ → Node → ℕ → ℕ
visits_left limit Node.output_filter retries = 1
visits_left limit Node.verifier retries = 2 + 3 * (limit - retries)
visits_left limit Node.synthesizer retries = 3 + 3 * (limit - retries)
visits_left limit Node.knowledge retries = 4 + 3 * (limit - retries)
visits_left limit Node.planner retries = 5 + 3 * (limit - retries)
visits_left limit Node.router retries = 6 + 3 * (limit - retries)
visits_left limit Node.privacy_permission retries = 7 + 3 * (limit - retries)

-- The target of an edge has fewer nodes left than the node that the run came from.
abbrev pub Descends : ℕ → ℕ → GraphState × Option Node → Type 0
Descends limit bound (s', none) = Unit
Descends limit bound (s', some target) = visits_left limit target s'.retry_count < bound

module _ {R : GraphState × Option Node → Type 0} where
  -- What a node leaves and what its edge chooses, together.
  pub step-Ensures :
      (rt : Runtime) (svc : Services) (node : Node) (s : GraphState) (Q : GraphState → Type 0)
      → Ensures Q AnyError (visit rt svc node s)
      → ((s' : GraphState)
          → Q s'
          → Ensures (λ (o : Option Node). R (s', o)) AnyError (next rt node s'))
      → Ensures R AnyError (step rt svc node s)
  unfolding step
  step-Ensures rt svc node s Q v n =
      Ensures-bind Q _ _ v
        λ s' q. Ensures-bind (λ (o : Option Node). R (s', o)) _ _ (n s' q) λ o r. Ensures-pure _ r

router-edge :
    (limit bound : ℕ) (s' : GraphState) (stage : NextStage)
    → 5 + 3 * (limit - s'.retry_count) < bound
    → visits_left limit (entry_of stage) s'.retry_count < bound
router-edge limit bound s' NextStage.planner h = h
router-edge limit bound s' NextStage.knowledge h = omega arith

and-left : {a : Bool} (b : Bool) → (a && b) ≡ true → a ≡ true
and-left {a = true} b h = refl
and-left {a = false} b h = h

edge-lt :
    (limit r r' : ℕ) (t : Bool)
    → (t ≡ true → (r' ≡ r + 1) × (r' ≤ limit))
    → visits_left limit (if t then Node.knowledge else Node.output_filter) r' < 2 + 3 * (limit - r)
edge-lt limit r r' true h = let (e, le) = h refl in omega arith
edge-lt limit r r' false h = omega arith

retry_facts :
    (limit : ℕ) (s s' : GraphState) (d : VerificationDecision) (room : Bool)
    → Verified limit s s'
    → s'.verification ≡ some d
    → (wants_retry d && room) ≡ true
    → (s'.retry_count ≡ s.retry_count + 1) × (s'.retry_count ≤ limit)
retry_facts limit s s' d room (again e le _ _ _ _ _) found h = (e, le)
retry_facts limit s s' d room (concluded {d = d'} e own stop _ _ _) found h =
    let same : d' ≡ d = some-injective d' d (sym own ∙ found) in
    absurd (false≢true (sym stop ∙ ap wants_retry same ∙ and-left room h))

verifier-edge :
    (rt : Runtime) (s s' : GraphState)
    → Verified (retry_limit rt) s s'
    → Ensures
        (λ (node : Node).
          visits_left (retry_limit rt) node s'.retry_count
          < visits_left (retry_limit rt) Node.verifier s.retry_count)
        AnyError
        (after_verifier rt s')
unfolding after_verifier
verifier-edge rt s s' v = Ensures-read _ _ _ λ d found. Ensures-pure _ (
    edge-lt (retry_limit rt) s.retry_count s'.retry_count _ (
      retry_facts (retry_limit rt) s s' d
        (ltb 0 s'.retry_count && leb s'.retry_count (retry_limit rt)) v found))

-- From any node, state and world: where a node and its edge choose another node, that node has fewer
-- visits left than the node the step came from, whatever the services answer.
pub step-Descends :
    (rt : Runtime) (svc : Services) (node : Node) (s : GraphState)
    → Ensures
        (Descends (retry_limit rt) (visits_left (retry_limit rt) node s.retry_count))
        AnyError
        (step rt svc node s)
unfolding visit next after_router
step-Descends rt svc Node.privacy_permission s =
    step-Ensures rt svc _ s (λ (s' : GraphState). s'.retry_count ≡ s.retry_count)
      (privacy_permission-count svc s) λ s' same. Ensures-pure _ (omega (arith, same))
step-Descends rt svc Node.router s =
    step-Ensures rt svc _ s (Same s) (router-Same rt svc s) λ s' same.
      Ensures-bind
        (λ (node : Node).
          visits_left (retry_limit rt) node s'.retry_count
          < visits_left (retry_limit rt) Node.router s.retry_count)
        _ _
        (Ensures-read _ _ _ λ d _.
          Ensures-pure _
            (router-edge (retry_limit rt) _ s' d.next_stage (omega (arith, same.count))))
        λ node h. Ensures-pure _ h
step-Descends rt svc Node.planner s =
    step-Ensures rt svc _ s (Same s) (planner-Same svc s)
      λ s' same. Ensures-pure _ (omega (arith, same.count))
step-Descends rt svc Node.knowledge s =
    step-Ensures rt svc _ s (Same s) (knowledge-Same rt svc s)
      λ s' same. Ensures-pure _ (omega (arith, same.count))
step-Descends rt svc Node.synthesizer s =
    step-Ensures rt svc _ s (Same s) (synthesizer-Same svc s)
      λ s' same. Ensures-pure _ (omega (arith, same.count))
step-Descends rt svc Node.verifier s =
    step-Ensures rt svc _ s (Verified (retry_limit rt) s) (verifier-Verified rt svc s)
      λ s' v. Ensures-bind _ _ _ (verifier-edge rt s s' v) λ node h. Ensures-pure _ h
step-Descends rt svc Node.output_filter s =
    step-Ensures rt svc _ s (Same s) (output_filter-Same svc s) λ s' same. Ensures-pure _ tt
