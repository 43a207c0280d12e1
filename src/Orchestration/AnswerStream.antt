-- ===== src/Orchestration/AnswerStream.antt =====
-- app/orchestration/answer_stream.py: redacted fragments of an answer, for its readers. The set
-- `_complete` is a list read through membership.
use multi_agent_rag_local.Common.{
  ℕ, String, Bool, not, none, some, List, [], ◌∷◌, ◌++◌, ◌==◌, ltb, if◌then◌else◌, or_default,
  length, drop, filter, contains,
}
use multi_agent_rag_local.OrderedDict.{insert, lookup, move_to_end, OrderedDict}
pub mod Delivery
pub mod Completion

pub record AnswerStreamStore : Type 0 where
  pub fragments : OrderedDict (List String)
  pub completed : List String
  pub max_executions : ℕ
  pub max_fragments : ℕ

-- `AnswerStreamStore()` with its defaults.
unfoldable pub new_stream : AnswerStreamStore
new_stream = record { fragments = []; completed = []; max_executions = 512; max_fragments = 4_000 }

-- `_complete.discard`
abbrev pub discard : String → List String → List String
discard key completed = filter (λ id. not (key == id)) completed

-- `while len(self._fragments) > self._max_executions`: what is left of the fragments and of the marks.
unfoldable pub evict_streams :
    ℕ → OrderedDict (List String) → List String → OrderedDict (List String) × List String
evict_streams m [] completed = ([], completed)
evict_streams m ((evicted, v) ∷ d) completed =
    let rest = evict_streams m d (discard evicted completed) in
    if ltb m (length ((evicted, v) ∷ d)) then rest else ((evicted, v) ∷ d, completed)

-- `fragments.append`, on the list object of the execution: it shows in the dict, unless the eviction
-- has just popped it.
unfoldable pub append_fragment :
    ℕ → String → String → OrderedDict (List String) → OrderedDict (List String)
append_fragment limit execution_id fragment d = elim (lookup execution_id d) [
  | none ↦ d
  | some fragments ↦
      if ltb (length fragments) limit then insert execution_id (fragments ++ fragment ∷ []) d else d
]

-- `publish`: an empty fragment is not stored.
unfoldable pub publish_fragment : String → String → AnswerStreamStore → AnswerStreamStore
unfolding evict_streams append_fragment
publish_fragment execution_id fragment s =
    let (kept, completed) =
      evict_streams s.max_executions (insert execution_id [] s.fragments) s.completed in
    if fragment == "" then s else elim (lookup execution_id s.fragments) [
      | none ↦ record s {
        fragments = append_fragment s.max_fragments execution_id fragment kept;
        completed = completed;
      }
      | some _ ↦ record s {
        fragments =
            append_fragment s.max_fragments execution_id fragment
              (move_to_end execution_id s.fragments);
      }
    ]

unfoldable pub complete : String → AnswerStreamStore → AnswerStreamStore
complete id s = record s { completed = id ∷ s.completed }

-- `[offset:]`, for an offset that is not negative.
unfoldable pub since : String → ℕ → AnswerStreamStore → List String
since id offset s = drop offset (or_default [] (lookup id s.fragments))

unfoldable pub is_complete : String → AnswerStreamStore → Bool
is_complete id s = contains id s.completed
