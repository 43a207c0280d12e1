-- ===== src/Knowledge/Context.antt =====
-- app/knowledge/context.py: `ContextBuilder`. What it uses of Python's texts is a parameter: `str` of
-- a number and of a tuple, the slice of the first characters, and `rstrip`. A score is in millionths.
use multi_agent_rag_local.OrderedDict.{insert, OrderedDict, lookup}
use multi_agent_rag_local.Common.{
  take, ℕ, ◌+◌, ◌-◌, ◌*◌, ◌/◌, max, String, Bool, true, false, ◌&&◌, ◌||◌, Option, none, some, List,
  [], ◌∷◌, ◌++◌, ◌==◌, ltb, leb, nat_eq, if◌then◌else◌,
}
use Prim.Native.Nat.{Ordering}
use Prim.Native.String.{count, ◌++◌ as append, compare}
use multi_agent_rag_local.Domain.{EvidenceLayer, EvidenceItem}
pub mod Budget
pub mod Winners
pub mod Resolved
pub mod Single
pub mod Groups
pub mod Bundle

pub record TextTools : Type 0 where
  pub show_number : ℕ → String
  pub first_characters : ℕ → String → String
  pub rstrip : String → String
  pub show_notes : List String → String

-- `_LAYER_PRIORITY`, and the retriever that goes before the layer.
unfoldable pub layer_priority : EvidenceLayer → ℕ
layer_priority EvidenceLayer.evidence = 0
layer_priority EvidenceLayer.knowledge = 1
layer_priority EvidenceLayer.memory = 3
layer_priority EvidenceLayer.web = 4
layer_priority EvidenceLayer.tool = 4

unfoldable pub priority : EvidenceItem → ℕ
unfolding layer_priority
priority item = if item.retriever == "current_context" then 2 else layer_priority item.layer

-- `_score`, one more than the score: an item without one is below a score of 0.
unfoldable pub score : EvidenceItem → ℕ
score item = elim item.score [ none ↦ 0 | some s ↦ s + 1 ]

-- The test of `_resolve_conflicts` for a new winner.
unfoldable pub overrides : (item current : EvidenceItem) → Bool
unfolding priority score
overrides item current =
    ltb (priority item) (priority current)
    || (nat_eq (priority item) (priority current) && ltb (score current) (score item))

unfoldable pub layer_name : EvidenceLayer → String
layer_name EvidenceLayer.evidence = "evidence"
layer_name EvidenceLayer.knowledge = "knowledge"
layer_name EvidenceLayer.memory = "memory"
layer_name EvidenceLayer.web = "web"
layer_name EvidenceLayer.tool = "tool"

unfoldable pub conflict_note : String → (winner loser : EvidenceItem) → String
unfolding layer_name
conflict_note group winner loser = append group (
    append ": " (
      append (layer_name winner.layer) (
        append ":" (
          append winner.document_id (
            append " overrides "
              (append (layer_name loser.layer) (append ":" loser.document_id)))))))

pub record Conflicts : Type 0 where
  pub winners : OrderedDict EvidenceItem
  pub without_group : List EvidenceItem
  pub notes : List String

-- The group of an item, if it has one that is not empty.
unfoldable pub group_of : EvidenceItem → Option String
group_of item = elim item.conflict_group [
  | none ↦ none
  | some group ↦ if group == "" then none else some group
]

-- One round of the loop of `_resolve_conflicts`.
unfoldable pub consider : EvidenceItem → Conflicts → Conflicts
unfolding conflict_note
consider item c = elim (group_of item) [
  | none ↦ record c { without_group = c.without_group ++ item ∷ [] }
  | some group ↦ elim (lookup group c.winners) [
    | none ↦ record c { winners = insert group item c.winners }
    | some current ↦
        if overrides item current
        then record c {
          winners = insert group item c.winners;
          notes = c.notes ++ conflict_note group item current ∷ [];
        }
        else record c { notes = c.notes ++ conflict_note group current item ∷ [] }
  ]
]

unfoldable pub consider_all : List EvidenceItem → Conflicts → Conflicts
unfolding consider
consider_all [] c = c
consider_all (item ∷ items) c = consider_all items (consider item c)

-- The sort key: the priority, the negated score and the id.
unfoldable pub precedes : (a b : EvidenceItem) → Bool
unfolding overrides
precedes a b =
    overrides a b
    || (nat_eq (priority a) (priority b)
        && nat_eq (score a) (score b)
        && (elim (compare a.item_id b.item_id) [ Ordering.lt ↦ true | _ ↦ false ]))

-- A stable sort: an item goes before the first one that does not come before it.
unfoldable pub place : EvidenceItem → List EvidenceItem → List EvidenceItem
unfolding precedes
place item [] = item ∷ []
place item (x ∷ xs) =
    let rest = place item xs in if precedes x item then x ∷ rest else item ∷ x ∷ xs

unfoldable pub sort_items : List EvidenceItem → List EvidenceItem
unfolding place
sort_items [] = []
sort_items (x ∷ xs) = place x (sort_items xs)

abbrev pub no_conflicts : Conflicts
no_conflicts = record { winners = []; without_group = []; notes = [] }

abbrev pub values : OrderedDict EvidenceItem → List EvidenceItem
values [] = []
values ((group, item) ∷ rest) = item ∷ values rest

-- `_resolve_conflicts`
unfoldable pub resolve_conflicts : List EvidenceItem → List EvidenceItem × List String
unfolding sort_items consider_all
resolve_conflicts items =
    let c = consider_all items no_conflicts in
    (sort_items (c.without_group ++ values c.winners), take 20 c.notes)

-- `_estimate_tokens`
unfoldable pub estimate_tokens : String → ℕ
estimate_tokens text = max 1 ((count text + 3) / 4)

module _ (tools : TextTools) where
  open tools use {show_number, first_characters, rstrip}

  -- `_render_item`
  unfoldable pub render_header : ℕ → EvidenceItem → String
  render_header index item =
      let document = append "document=" item.document_id in
      let version =
        append document
          (elim item.version [ none ↦ "" | some n ↦ append ", version=" (show_number n) ]) in
      let page =
        append version (elim item.page [ none ↦ "" | some n ↦ append ", page=" (show_number n) ]) in
      let chunk = append page (elim item.chunk_id [
        | none ↦ ""
        | some id ↦ if id == "" then "" else append ", chunk=" id
      ]) in
      let location = append chunk (elim item.image_id [
        | none ↦ ""
        | some id ↦ if id == "" then "" else append ", image=" id
      ]) in
      append "[E" (
        append (show_number index) (
          append "] " (
            append location (
              append "; source=" (
                append item.source (
                  append "; layer="
                    (append (layer_name item.layer) (append "; retriever=" item.retriever))))))))

  unfoldable pub render_item : ℕ → EvidenceItem → String
  unfolding render_header
  render_item index item = append (render_header index item) (append "\n" item.content)

  unfoldable pub clip : ℕ → EvidenceItem → EvidenceItem
  clip max_chars item = record item {
    content = append (rstrip (first_characters max_chars item.content)) "…";
  }

  -- `_truncate`, from the item with a number on
  unfoldable pub truncate_from : ℕ → List EvidenceItem → (remaining : ℕ) → List EvidenceItem × Bool
  unfolding estimate_tokens render_header clip
  truncate_from index [] remaining = ([], false)
  truncate_from index (item ∷ items) remaining =
      let prefix_cost = estimate_tokens (render_header index item) in
      let content_budget = remaining - prefix_cost in
      let content_cost = estimate_tokens item.content in
      let (bounded, truncated) =
        truncate_from (index + 1) items (remaining - (prefix_cost + content_cost)) in
      if leb remaining prefix_cost
      then ([], true)
      else if leb content_cost content_budget
      then (item ∷ bounded, truncated)
      else (clip (max 1 (content_budget * 4)) item ∷ [], true)

  unfoldable pub truncate : List EvidenceItem → (token_budget : ℕ) → List EvidenceItem × Bool
  unfolding truncate_from
  truncate items token_budget = truncate_from 1 items token_budget
