-- ===== src/Orchestration/AnswerStream/Delivery.antt =====
-- answer_stream.py: the fragments of an execution against an append-only log.
use multi_agent_rag_local.Orchestration.EventStore.Delivery.{
  publish_all-log, log, Active, publish_all,
}
use multi_agent_rag_local.Orchestration.AnswerStream.{
  since, append_fragment, discard, AnswerStreamStore, evict_streams, publish_fragment,
}
use multi_agent_rag_local.Common.{
  take, ◌-◌, ◌<◌, ap, ◌∙◌, none, Bool-cases, ℕ, String, ◌≡◌, refl, inl, inr, true, false, List, [],
  ◌∷◌, arith, ◌==◌, if◌then◌else◌, Option-cases,
}
use multi_agent_rag_local.Orchestration.EventStore.{
  events_since, ExecutionEventStore, publish, append_to, touch,
}
use multi_agent_rag_local.OrderedDict.{pop_oldest, lookup, insert, OrderedDict}

unfoldable pub publish_fragments : List (String × String) → AnswerStreamStore → AnswerStreamStore
publish_fragments [] s = s
publish_fragments ((id, f) ∷ rest) s = publish_fragments rest (publish_fragment id f s)

-- Of the fragments of a stream, the empty ones are not stored.
unfoldable pub shown : List (String × String) → List (String × String)
shown [] = []
shown ((id, f) ∷ rest) = let later = shown rest in if f == "" then later else (id, f) ∷ later

-- The fragments alone, as events of the store of execution_events.py.
abbrev pub as_events : AnswerStreamStore → ExecutionEventStore String
as_events s = record {
  events = s.fragments;
  max_executions = s.max_executions;
  max_events_per_execution = s.max_fragments;
}

evict_streams-pop_oldest :
    (m : ℕ) (d : OrderedDict (List String)) (completed : List String)
    → (evict_streams m d completed).0 ≡ pop_oldest m d
unfolding evict_streams pop_oldest
evict_streams-pop_oldest m [] completed = refl
evict_streams-pop_oldest m ((k, v) ∷ d) completed =
    ground (arith, evict_streams-pop_oldest m d (discard k completed))

publish_fragment-empty :
    (id f : String) (s : AnswerStreamStore) → (f == "") ≡ true → publish_fragment id f s ≡ s
unfolding publish_fragment
publish_fragment-empty id f s e = rw (publish_fragment, e) refl

publish_fragment-publish :
    (id f : String) (s : AnswerStreamStore)
    → (f == "") ≡ false
    → as_events (publish_fragment id f s) ≡ publish id f (as_events s)
unfolding publish_fragment publish touch append_to append_fragment
publish_fragment-publish id f s e = elim (Option-cases (lookup id s.fragments)) [
  | inl new ↦
      rw
        (
          publish_fragment,
          publish,
          touch,
          e,
          new,
          evict_streams-pop_oldest s.max_executions (insert id [] s.fragments) s.completed,
        )
        refl
  | inr (fragments, old) ↦ rw (publish_fragment, publish, touch, e, old) refl
]

publish_fragments-publish_all :
    (ops : List (String × String)) (s : AnswerStreamStore)
    → as_events (publish_fragments ops s) ≡ publish_all (shown ops) (as_events s)
unfolding publish_fragments shown publish_all
publish_fragments-publish_all [] s = refl
publish_fragments-publish_all ((id, f) ∷ rest) s = elim (Bool-cases (f == "")) [
  | inl e ↦ rw e (
      ap (λ t. as_events (publish_fragments rest t)) (publish_fragment-empty id f s e)
      ∙ publish_fragments-publish_all rest s)
  | inr e ↦ rw e (
      publish_fragments-publish_all rest (publish_fragment id f s)
      ∙ ap (publish_all (shown rest)) (publish_fragment-publish id f s e))
]

since-events_since :
    (id : String) (offset : ℕ) (s : AnswerStreamStore)
    → since id offset s ≡ events_since id offset (as_events s)
unfolding since events_since
since-events_since id offset s = refl

-- An execution that is new to the store and whose first fragment is not empty, and between whose
-- fragments, and after the last, fewer than `max_executions` fragments of others lie (empty ones not
-- counted), reads as its own fragments that are not empty, in the order in which they were
-- published, up to the cap of fragments for one execution.
pub publish_fragments-log :
    (id f : String) (ops : List (String × String)) (s : AnswerStreamStore)
    → (f == "") ≡ false
    → 0 < s.max_executions
    → lookup id s.fragments ≡ none
    → Active id (s.max_executions - 1) (s.max_executions - 1) (shown ops)
    → since id 0 (publish_fragments ((id, f) ∷ ops) s)
      ≡ take s.max_fragments (log id (shown ((id, f) ∷ ops)))
unfolding shown
publish_fragments-log id f ops s e positive fresh active =
    since-events_since id 0 (publish_fragments ((id, f) ∷ ops) s)
    ∙ ap (events_since id 0) (publish_fragments-publish_all ((id, f) ∷ ops) s)
    ∙ rw e (publish_all-log id f (shown ops) (as_events s) positive fresh active)
