-- ===== src/Orchestration/AnswerStream/Completion.antt =====
-- answer_stream.py: which executions count as complete.
use multi_agent_rag_local.OrderedDict.{insert, OrderedDict, lookup}
use multi_agent_rag_local.Orchestration.AnswerStream.{
  discard, evict_streams, is_complete, AnswerStreamStore, publish_fragment,
}
use multi_agent_rag_local.Common.{
  ℕ, String, ◌≡◌, refl, false, true, not, ◌&&◌, List, [], ◌∷◌, arith, ◌==◌, eq_iff, length, ltb,
  if◌then◌else◌, contains, none, some,
}

-- The executions that an eviction down to `m` removes.
unfoldable pub popped : ℕ → OrderedDict (List String) → List String
popped m [] = []
popped m ((k, v) ∷ d) =
    let rest = popped m d in if ltb m (length ((k, v) ∷ d)) then k ∷ rest else []

contains-discard :
    (x key : String) (completed : List String)
    → contains x (discard key completed) ≡ (contains x completed && not (key == x))
contains-discard x key [] = refl
contains-discard x key (y ∷ ys) =
    ground (arith, eq_iff y x, eq_iff key y, eq_iff key x, contains-discard x key ys)

evict_streams-contains :
    (x : String) (m : ℕ) (d : OrderedDict (List String)) (completed : List String)
    → contains x (evict_streams m d completed).1
      ≡ (contains x completed && not (contains x (popped m d)))
unfolding evict_streams popped
evict_streams-contains x m [] completed = ground arith
evict_streams-contains x m ((k, v) ∷ d) completed =
    ground
      (arith, contains-discard x k completed, evict_streams-contains x m d (discard k completed))

-- The executions that a fragment evicts.
abbrev pub evicted_for : String → AnswerStreamStore → List String
evicted_for id s = elim (lookup id s.fragments) [
  | none ↦ popped s.max_executions (insert id [] s.fragments)
  | some _ ↦ []
]

-- Publishing marks nothing complete.
pub publish_fragment_complete :
    (j id f : String) (s : AnswerStreamStore)
    → is_complete j (publish_fragment id f s) ≡ true
    → is_complete j s ≡ true
unfolding is_complete publish_fragment
publish_fragment_complete j id f s h =
    ground (arith, evict_streams-contains j s.max_executions (insert id [] s.fragments) s.completed)

-- An execution that is complete, and that a fragment does not evict, stays complete.
pub publish_fragment-held :
    (j id f : String) (s : AnswerStreamStore)
    → contains j (evicted_for id s) ≡ false
    → is_complete j s ≡ true
    → is_complete j (publish_fragment id f s) ≡ true
unfolding is_complete publish_fragment
publish_fragment-held j id f s h k =
    ground (arith, evict_streams-contains j s.max_executions (insert id [] s.fragments) s.completed)
