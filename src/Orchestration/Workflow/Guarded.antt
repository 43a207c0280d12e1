-- ===== src/Orchestration/Workflow/Guarded.antt =====
-- workflow.py: which errors end a run.
use multi_agent_rag_local.Orchestration.Post.{Ensures-both, Anything, Ensures-bind, Meets}
use multi_agent_rag_local.Orchestration.Workflow.Bounded.{step-Descends, Descends, visits_left}
use multi_agent_rag_local.Orchestration.Timeout.{
  timeout_error, stage_timeout, stage_execution, recursion_error, value_error, type_error,
  permission_error, runtime_error, err, ok, Error,
}
use multi_agent_rag_local.Common.{
  ℕ, zero, suc, ◌≤◌, ◌<◌, ◌≡◌, refl, Option, none, some, arith, Bool, true, false, not, is_some,
}
use multi_agent_rag_local.Orchestration.Stage.Errors.{Allowed, allowed, Clean}
use multi_agent_rag_local.Orchestration.Nodes.Errors.{
  Clean-required, Clean-pure, Clean-bind, privacy_permission-Clean, router-Clean, planner-Clean,
  knowledge-Clean, synthesizer-Clean, verifier-Clean, output_filter-Clean,
}
use multi_agent_rag_local.Orchestration.Workflow.{
  after_verifier, after_router, initial, retry_limit, OrchestrationRequest, Result, Run, follow,
  next, run_from, step, GraphState, Runtime, Services, Node, visit,
}

-- The nodes that a timeout may end: the two security boundaries, and a synthesizer without a
-- candidate synthesizer.
abbrev pub may_time_out : Services → Node → Bool
may_time_out svc Node.privacy_permission = true
may_time_out svc Node.output_filter = true
may_time_out svc Node.synthesizer = not (is_some svc.candidate_synthesizer)
may_time_out svc _ = false

-- A node ends with a failure of a stage or an unsupported route, or by its result. Only the two
-- security boundaries, and a synthesizer that has no candidate synthesizer, also end by a timeout.
pub visit-Clean :
    (rt : Runtime) (svc : Services) (node : Node) (s : GraphState)
    → Clean (may_time_out svc node) (visit rt svc node s)
unfolding visit
visit-Clean rt svc Node.privacy_permission s = privacy_permission-Clean svc s
visit-Clean rt svc Node.router s = router-Clean rt svc s
visit-Clean rt svc Node.planner s = planner-Clean svc s
visit-Clean rt svc Node.knowledge s = knowledge-Clean rt svc s
visit-Clean rt svc Node.synthesizer s = synthesizer-Clean svc s
visit-Clean rt svc Node.verifier s = verifier-Clean rt svc s
visit-Clean rt svc Node.output_filter s = output_filter-Clean svc s

allowed_mono : (b : Bool) (e : Error) → allowed b e ≡ true → allowed true e ≡ true
allowed_mono true e h = h
allowed_mono false (stage_execution _ _) h = refl
allowed_mono false (value_error _) h = refl
allowed_mono false (stage_timeout _ _ _) h = refl
allowed_mono false timeout_error h = h
allowed_mono false recursion_error h = h
allowed_mono false (type_error _) h = h
allowed_mono false (permission_error _) h = h
allowed_mono false (runtime_error _) h = h

module _ {ℓ} {A : Type ℓ} where
  Meets-mono :
      (b : Bool) (r : Result A) → Meets Anything (Allowed b) r → Meets Anything (Allowed true) r
  Meets-mono b (ok a) h = tt
  Meets-mono b (err e) h = allowed_mono b e h

  Clean-mono : (b : Bool) (m : Run A) → Clean b m → Clean true m
  Clean-mono b m h = record { at = λ w. Meets-mono b (m w).0 (h.at w) }

next-Clean : (rt : Runtime) (node : Node) (s : GraphState) → Clean true (next rt node s)
unfolding next after_router after_verifier
next-Clean rt Node.privacy_permission s = Clean-pure _
next-Clean rt Node.router s =
    Clean-bind _ _ (Clean-bind _ _ (Clean-required _ _) (λ d. Clean-pure _)) (λ n. Clean-pure _)
next-Clean rt Node.planner s = Clean-pure _
next-Clean rt Node.knowledge s = Clean-pure _
next-Clean rt Node.synthesizer s = Clean-pure _
next-Clean rt Node.verifier s =
    Clean-bind _ _ (Clean-bind _ _ (Clean-required _ _) (λ d. Clean-pure _)) (λ n. Clean-pure _)
next-Clean rt Node.output_filter s = Clean-pure _

step-Clean :
    (rt : Runtime) (svc : Services) (node : Node) (s : GraphState) → Clean true (step rt svc node s)
unfolding step
step-Clean rt svc node s =
    Clean-bind _ _ (Clean-mono _ _ (visit-Clean rt svc node s))
      λ s'. Clean-bind _ _ (next-Clean rt node s') λ t. Clean-pure _

visits_left_pos : (limit : ℕ) (node : Node) (r : ℕ) → 0 < visits_left limit node r
visits_left_pos limit Node.privacy_permission r = omega arith
visits_left_pos limit Node.router r = omega arith
visits_left_pos limit Node.planner r = omega arith
visits_left_pos limit Node.knowledge r = omega arith
visits_left_pos limit Node.synthesizer r = omega arith
visits_left_pos limit Node.verifier r = omega arith
visits_left_pos limit Node.output_filter r = omega arith

module _ (rt : Runtime) (svc : ℕ → Services) where
  follow-Clean :
      (n bound : ℕ) (target : Option Node) (s : GraphState)
      (go : Node → GraphState → Run GraphState)
      → bound ≤ suc n
      → Descends (retry_limit rt) bound (s, target)
      → ((t : Node) → visits_left (retry_limit rt) t s.retry_count ≤ n → Clean true (go t s))
      → Clean true (follow target s go)
  unfolding follow
  follow-Clean n bound none s go h d k = Clean-pure s
  follow-Clean n bound (some t) s go h d k = k t (omega (arith, d))

  run_from-Clean :
      (n : ℕ) (node : Node) (s : GraphState)
      → visits_left (retry_limit rt) node s.retry_count ≤ n
      → Clean true (run_from rt svc n node s)
  unfolding run_from
  run_from-Clean zero node s h =
      absurd (omega (arith, visits_left_pos (retry_limit rt) node s.retry_count))
  run_from-Clean (suc n) node s h =
      Ensures-bind _ _ _
        (Ensures-both _ (step-Descends rt (svc n) node s) (step-Clean rt (svc n) node s))
        λ p d. follow-Clean n _ p.1 p.0 (run_from rt svc n) h d (λ t. run_from-Clean n t p.0)

-- From the entry and in any world, a run that is allowed ten visits or more never ends at the recursion
-- limit, whatever the services answer: it ends by a result, by a stage's failure, by an unsupported
-- route or by a stage's timeout.
pub run_from-ends :
    (rt : Runtime) (svc : ℕ → Services) (n : ℕ) (request : OrchestrationRequest)
    → 10 ≤ n
    → Clean true (run_from rt svc n Node.privacy_permission (initial request))
run_from-ends rt svc n request h =
    run_from-Clean rt svc n Node.privacy_permission (initial request) (omega arith)
