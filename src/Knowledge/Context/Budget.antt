-- ===== src/Knowledge/Context/Budget.antt =====
-- context.py: the estimated tokens of what `_truncate` keeps.
use multi_agent_rag_local.Domain.{EvidenceItem}
use multi_agent_rag_local.Common.{
  ap, true, ltb, leb, ℕ, ◌+◌, ◌-◌, ◌*◌, ◌≤◌, ◌<◌, max, String, ◌≡◌, refl, false, List, [], ◌∷◌,
  arith,
}
use Prim.Native.String.{count}
use text.Mathlib.TextLemmas.{length-append as count-append}
use multi_agent_rag_local.Knowledge.Context.{
  truncate, render_header, estimate_tokens, clip, truncate_from, TextTools,
}

module _ (tools : TextTools)
    (clips : (n : ℕ) (text : String) → count (tools.first_characters n text) ≤ n)
    (strips : (text : String) → count (tools.rstrip text) ≤ count text) where
  -- What the kept items cost, each with its header, by the estimate of the source.
  unfoldable pub cost_from : ℕ → List EvidenceItem → ℕ
  cost_from index [] = 0
  cost_from index (item ∷ items) =
      estimate_tokens (render_header tools index item)
      + estimate_tokens item.content
      + cost_from (index + 1) items

  clip-cost :
      (n : ℕ) (item : EvidenceItem)
      → 0 < n
      → estimate_tokens (clip tools (max 1 (n * 4)) item).content ≤ n + 1
  unfolding clip estimate_tokens
  clip-cost n item h =
      let text = tools.first_characters (max 1 (n * 4)) item.content in
      let one : count "…" ≡ 1 = refl in
      omega (
        arith,
        h,
        one,
        clips (max 1 (n * 4)) item.content,
        strips text,
        count-append (tools.rstrip text) "…",
      )

  truncate_from-cost :
      (index : ℕ) (items : List EvidenceItem) (remaining : ℕ)
      → cost_from index (truncate_from tools index items remaining).0 ≤ remaining + 1
  unfolding cost_from truncate_from
  truncate_from-cost index [] remaining = omega arith
  truncate_from-cost index (item ∷ items) remaining =
      let prefix_cost = estimate_tokens (render_header tools index item) in
      let content_cost = estimate_tokens item.content in
      let rest = truncate_from-cost (index + 1) items (remaining - (prefix_cost + content_cost)) in
      ground (arith, rest, clip-cost (remaining - prefix_cost) item)

  estimate_pos : (text : String) → 0 < estimate_tokens text
  unfolding estimate_tokens
  estimate_pos text = omega arith

  truncate_from-truncated :
      (index : ℕ) (items : List EvidenceItem) (remaining : ℕ)
      → (truncate_from tools index items remaining).1 ≡ ltb remaining (cost_from index items)
  unfolding cost_from truncate_from
  truncate_from-truncated index [] remaining = ground arith
  truncate_from-truncated index (item ∷ items) remaining =
      let prefix_cost = estimate_tokens (render_header tools index item) in
      let content_cost = estimate_tokens item.content in
      let rest =
        truncate_from-truncated (index + 1) items (remaining - (prefix_cost + content_cost)) in
      ground (arith, rest, estimate_pos item.content)

  truncate_from-kept :
      (index : ℕ) (items : List EvidenceItem) (remaining : ℕ)
      → cost_from index items ≤ remaining
      → (truncate_from tools index items remaining).0 ≡ items
  unfolding cost_from truncate_from
  truncate_from-kept index [] remaining h = refl
  truncate_from-kept index (item ∷ items) remaining h =
      let prefix_cost = estimate_tokens (render_header tools index item) in
      let content_cost = estimate_tokens item.content in
      let rest =
        truncate_from-kept (index + 1) items (remaining - (prefix_cost + content_cost))
          (omega (arith, h)) in
      let fits : leb content_cost (remaining - prefix_cost) ≡ true = ground (arith, h) in
      let room : leb remaining prefix_cost ≡ false = ground (arith, h, estimate_pos item.content) in
      rw (fits, room) (ap (λ (l : List EvidenceItem). item ∷ l) rest)

  -- The estimate of what `_truncate` keeps, headers and contents, is at most one token above the
  -- budget; and it tells that it truncated exactly when the estimate of all items is above the budget.
  -- The slice of the first `n` characters has at most `n`, and `rstrip` makes no text longer.
  pub truncate-cost :
      (items : List EvidenceItem) (token_budget : ℕ)
      → let (bounded, truncated) = truncate tools items token_budget in
        (cost_from 1 bounded ≤ token_budget + 1)
        × (truncated ≡ ltb token_budget (cost_from 1 items))
  unfolding truncate
  truncate-cost items token_budget =
      (truncate_from-cost 1 items token_budget, truncate_from-truncated 1 items token_budget)

  -- Items whose estimate is within the budget are all kept as they are. The slice of the first `n`
  -- characters has at most `n`, and `rstrip` makes no text longer.
  pub truncate-kept :
      (items : List EvidenceItem) (token_budget : ℕ)
      → cost_from 1 items ≤ token_budget
      → truncate tools items token_budget ≡ (items, false)
  unfolding truncate
  truncate-kept items token_budget h = ground (
    arith,
    truncate_from-kept 1 items token_budget h,
    truncate_from-truncated 1 items token_budget,
  )
