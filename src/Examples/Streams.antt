-- ===== src/Examples/Streams.antt =====
-- Events, fragments and redacted chunks, at small inputs.
use multi_agent_rag_local.Orchestration.EventStore.Delivery.{publish_all-log, log, publish_all}
use multi_agent_rag_local.Privacy.Streaming.Shown.{finish-shown, push_all-shown, joined, push_all}
use multi_agent_rag_local.Privacy.Streaming.{
  starts_with, base_safety_margin, finish, push, redact_final, new_redactor, TextPasses,
}
use multi_agent_rag_local.Orchestration.AnswerStream.Delivery.{
  publish_fragments-log, shown, publish_fragments,
}
use multi_agent_rag_local.Orchestration.AnswerStream.{publish_fragment, since, AnswerStreamStore}
use multi_agent_rag_local.Orchestration.EventStore.{ExecutionEventStore, events_since}
use multi_agent_rag_local.Common.{
  take, ℕ, zero, suc, ◌+◌, ◌-◌, ◌≤◌, ◌≡◌, refl, true, not, List, [], ◌∷◌, ◌++◌, arith, leb, nat_eq,
  if◌then◌else◌, length, filter,
}
use multi_agent_rag_local.OrderedDict.{insert, lookup, lookup-empty, move_to_end}

abbrev two_store : ExecutionEventStore ℕ
two_store = record { events = []; max_executions = 2; max_events_per_execution = 2 }

publish_all-log_example :
    events_since "a" 0 (publish_all (("a", 0) ∷ ("b", 1) ∷ ("a", 2) ∷ ("a", 3) ∷ []) two_store)
    ≡ take 2 (log "a" (("a", 0) ∷ ("b", 1) ∷ ("a", 2) ∷ ("a", 3) ∷ []))
publish_all-log_example =
    publish_all-log "a" 0 (("b", 1) ∷ ("a", 2) ∷ ("a", 3) ∷ []) two_store (omega arith)
      (lookup-empty "a") (omega arith, tt)

abbrev fragment_store : AnswerStreamStore
fragment_store = record { fragments = []; completed = []; max_executions = 2; max_fragments = 2 }

publish_fragments-log_example :
    since "a" 0
      (publish_fragments (("a", "x") ∷ ("a", "") ∷ ("b", "y") ∷ ("a", "z") ∷ []) fragment_store)
    ≡ take 2 (log "a" (shown (("a", "x") ∷ ("a", "") ∷ ("b", "y") ∷ ("a", "z") ∷ [])))
unfolding shown
publish_fragments-log_example =
    publish_fragments-log "a" "x" (("a", "") ∷ ("b", "y") ∷ ("a", "z") ∷ []) fragment_store refl
      (omega arith) (lookup-empty "a") (omega arith, tt)

streams_test :
    (publish_fragments
      (("a", "x") ∷ ("a", "") ∷ ("b", "y") ∷ ("a", "z") ∷ ("c", "w") ∷ [])
      fragment_store).fragments
    ≡ ("a", "x" ∷ "z" ∷ []) ∷ ("c", "w" ∷ []) ∷ []
unfolding publish_fragments publish_fragment lookup insert move_to_end
streams_test = refl

-- Characters by their codes; a bell is removed.
abbrev toy_passes : TextPasses ℕ
toy_passes = record {
  sanitize_answer = λ text. filter (λ c. not (nat_eq c 7)) text;
  inspect_text = λ text. text;
  is_space = λ c. nat_eq c 32;
  same = nat_eq;
}

toy_same : (x y : ℕ) → nat_eq x y ≡ true → x ≡ y
toy_same x y h = ground (arith, h)

abbrev spaces : ℕ → List ℕ
spaces zero = []
spaces (suc n) = 32 ∷ spaces n

abbrev toy_chunks : List (List ℕ)
toy_chunks = (7 ∷ 65 ∷ spaces 70) ∷ (66 ∷ 7 ∷ []) ∷ []

push_all-shown_example :
    let (r, out) = push_all toy_passes toy_chunks (new_redactor 0) in
    (out ≡ (
      if leb r.released 0
      then []
      else redact_final toy_passes (take r.released (joined toy_chunks))))
    × (r.released ≤ length (joined toy_chunks) - (base_safety_margin + 0))
push_all-shown_example = push_all-shown toy_passes toy_same 0 toy_chunks

finish-shown_example :
    let (r, out) = push_all toy_passes toy_chunks (new_redactor 0) in
    let redacted = redact_final toy_passes (joined toy_chunks) in
    out ++ (finish toy_passes r).1 ≡ (if starts_with toy_passes out redacted then redacted else out)
finish-shown_example = finish-shown toy_passes toy_same 0 toy_chunks (omega arith)

-- The bell is not shown.
released_test : (push_all toy_passes toy_chunks (new_redactor 0)).1 ≡ 65 ∷ spaces 8
unfolding push_all new_redactor push redact_final
released_test = refl
