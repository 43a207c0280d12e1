-- ===== src/Knowledge/Context/Bundle.antt =====
-- context.py: `ContextBuilder.build`, with the masking of app/privacy/dlp.py. The value of a diagnostic
-- is the text that `str` shows of it.
use multi_agent_rag_local.Privacy.Dlp.Boundary.{IsMaskOf, mask_evidence-IsMaskOf}
use multi_agent_rag_local.Knowledge.Context.Resolved.{resolve_conflicts-All}
use multi_agent_rag_local.Domain.{ContextBundle, AccessScope, EvidenceItem}
use multi_agent_rag_local.Privacy.Dlp.{mask_evidence, mask_context, Redactor}
use multi_agent_rag_local.OrderedDict.{insert, OrderedDict}
use Prim.Native.String.{◌++◌ as append}
use multi_agent_rag_local.Knowledge.Context.{
  render_header, estimate_tokens, resolve_conflicts, clip, truncate, truncate_from, render_item,
  TextTools,
}
use multi_agent_rag_local.Privacy.Dlp.{Redactor}
use multi_agent_rag_local.Orchestration.Timeout.{Result, ok, err, value_error}
use multi_agent_rag_local.Common.{
  In, ◌-◌, ◌*◌, max, refl, leb, Bool-cases, ℕ, ◌+◌, String, ◌≡◌, ◌⊎◌, inl, inr, List, [], ◌∷◌,
  if◌then◌else◌, Option-cases, length, ℤ, pos, leb_ℤ, max_zero, All, here, there,
}

-- `__init__`
unfoldable pub new_builder : (token_budget : ℤ) → Result ℕ
new_builder token_budget =
    if leb_ℤ (pos 1) token_budget
    then ok (max_zero token_budget)
    else err (value_error "token_budget must be positive")

unfoldable pub insert_all : List (String × String) → OrderedDict String → OrderedDict String
insert_all [] d = d
insert_all ((k, v) ∷ rest) d = insert_all rest (insert k v d)

module _ (r : Redactor) (tools : TextTools) where
  -- `"\n\n".join(...)` of the rendered items, numbered from an index on
  unfoldable pub render_all : ℕ → List EvidenceItem → String
  render_all index [] = ""
  render_all index (item ∷ []) = render_item tools index item
  render_all index (item ∷ next ∷ items) =
      append (render_item tools index item) (append "\n\n" (render_all (index + 1) (next ∷ items)))

  unfoldable pub build :
      (token_budget : ℕ)
      → List EvidenceItem
      → AccessScope
      → (diagnostics : OrderedDict String) → ContextBundle
  unfolding insert_all
  build token_budget items scope diagnostics =
      let authorized = mask_context r items scope in
      let (resolved, notes) = resolve_conflicts authorized in
      let (bounded, truncated) = truncate tools resolved token_budget in
      record {
        evidence = bounded;
        rendered_context = render_all 1 bounded;
        diagnostics =
            insert_all
              (("context_authorized_count", tools.show_number (length authorized))
                ∷ ("context_conflicts_dropped", tools.show_number (length notes))
                ∷ ("context_conflicts", tools.show_notes notes)
                ∷ ("context_token_budget", tools.show_number token_budget)
                ∷ ("context_truncated", if truncated then "True" else "False")
                ∷ ("context_output_count", tools.show_number (length bounded))
                ∷ [])
              diagnostics;
      }

  module _ (items : List EvidenceItem) (scope : AccessScope) where
    -- What masking makes of an authorized item of the input.
    abbrev IsMasked : EvidenceItem → Type 0
    IsMasked masked = (item : EvidenceItem) × In item items × IsMaskOf r scope item masked

    mask_context-All :
        (rest : List EvidenceItem)
        → ((item : EvidenceItem) → In item rest → In item items)
        → All IsMasked (mask_context r rest scope)
    unfolding mask_context
    mask_context-All [] f = tt
    mask_context-All (item ∷ rest) f =
        let later = mask_context-All rest (λ x i. f x (there i)) in
        elim (Option-cases (mask_evidence r item scope)) [
          | inl e ↦ rw (mask_context, e) later
          | inr (masked, e) ↦
              rw (mask_context, e)
                ((item, f item here, mask_evidence-IsMaskOf r item scope e), later)
        ]

    -- The same, or cut off.
    abbrev pub IsShown : EvidenceItem → Type 0
    IsShown x =
        (masked : EvidenceItem) × IsMasked masked
        × ((x ≡ masked) ⊎ ((n : ℕ) × (x ≡ clip tools n masked)))

    truncate_from-All :
        (index : ℕ) (rest : List EvidenceItem) (remaining : ℕ)
        → All IsMasked rest
        → All IsShown (truncate_from tools index rest remaining).0
    unfolding truncate_from
    truncate_from-All index [] remaining a = tt
    truncate_from-All index (item ∷ rest) remaining (m, a) =
        let prefix_cost = estimate_tokens (render_header tools index item) in
        let content_cost = estimate_tokens item.content in
        let later =
          truncate_from-All (index + 1) rest (remaining - (prefix_cost + content_cost)) a in
        elim (Bool-cases (leb remaining prefix_cost)) [
          | inl e ↦ rw e tt
          | inr e ↦ elim (Bool-cases (leb content_cost (remaining - prefix_cost))) [
            | inl f ↦ rw (e, f) ((item, m, inl refl), later)
            | inr f ↦ rw (e, f) ((item, m, inr (max 1 ((remaining - prefix_cost) * 4), refl)), tt)
          ]
        ]

    -- Every item of the built context is an item of the input that the scope authorizes, as masking
    -- leaves it, or that with its content cut off.
    pub build-IsShown :
        (token_budget : ℕ) (diagnostics : OrderedDict String)
        → All IsShown (build token_budget items scope diagnostics).evidence
    unfolding build truncate
    build-IsShown token_budget diagnostics =
        let authorized = mask_context r items scope in
        truncate_from-All 1 (resolve_conflicts authorized).0 token_budget
          (resolve_conflicts-All IsMasked authorized (mask_context-All items λ x i. i))
