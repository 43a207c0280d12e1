-- ===== src/Privacy/Dlp.antt =====
-- app/privacy/dlp.py: evidence outside the caller's scope is dropped, the rest is redacted.
pub mod Boundary
use multi_agent_rag_local.Common.{
  ℕ, ◌+◌, Bool, true, false, not, ◌&&◌, Option, none, some, List, [], ◌∷◌, String, ◌==◌, contains,
  meets, intersection, if◌then◌else◌, ◌≡◌, refl,
}
use Prim.Native.String.{◌++◌ as append}
use text.Mathlib.Text.{starts_with}
use multi_agent_rag_local.Domain.{AccessScope, EvidenceItem, EvidenceLayer, DlpResult}

-- The two text passes: `inspect_text(text, kinds=OUTPUT_KINDS)` of app/privacy/text.py and
-- `sanitize_answer` of app/services/answer_safety.py. Both substitute regular expressions of
-- Python's `re` in a text and count what they replaced.
pub record Redactor : Type 0 where
  pub inspect_text : String → String × ℕ
  pub sanitize_answer : String → String × ℕ

abbrev pub content_fields : List String
content_fields =
    "content" ∷ "source" ∷ "document_id" ∷ "version" ∷ "page" ∷ "chunk_id" ∷ "image_id"
    ∷ "artifact_uri" ∷ []

unfoldable pub memory_source_prefix : AccessScope → String
memory_source_prefix scope =
    append "memory://" (append scope.tenant_id (append "/" (append scope.user_id "/")))

abbrev is_empty : List String → Bool
is_empty [] = true
is_empty (_ ∷ _) = false

-- The checks on a user document, each of which returns early.
documents_authorized : EvidenceItem → AccessScope → Bool
documents_authorized item scope =
    if is_empty scope.document_ids && is_empty scope.allowed_sources
    then false
    else if not (is_empty scope.document_ids) && not (contains item.document_id scope.document_ids)
    then false
    else if not (is_empty scope.allowed_sources) && not (contains item.source scope.allowed_sources)
    then false
    else if not (is_empty item.acl_tags) && not (meets item.acl_tags scope.acl_tags)
    then false
    else true

by_layer : EvidenceLayer → EvidenceItem → AccessScope → Bool
unfolding documents_authorized memory_source_prefix
by_layer EvidenceLayer.web item scope = true
by_layer EvidenceLayer.tool item scope = true
by_layer EvidenceLayer.memory item scope = starts_with item.source (memory_source_prefix scope)
by_layer EvidenceLayer.evidence item scope = documents_authorized item scope
by_layer EvidenceLayer.knowledge item scope = documents_authorized item scope

unfoldable pub evidence_is_authorized : EvidenceItem → AccessScope → Bool
unfolding by_layer
evidence_is_authorized item scope = by_layer item.layer item scope

module _ (r : Redactor) where
  open r use {inspect_text, sanitize_answer}

  unfoldable pub mask_evidence : EvidenceItem → AccessScope → Option EvidenceItem
  mask_evidence item scope =
      let allowed_fields = intersection scope.allowed_fields content_fields in
      if evidence_is_authorized item scope
      then some (record item {
        content =
            if contains "content" allowed_fields
            then (inspect_text item.content).0
            else "[REDACTED_FIELD]";
        artifact_uri = if contains "artifact_uri" allowed_fields then item.artifact_uri else none;
      })
      else none

  -- The loop of `filter_output`: the masked citations, and the ids of those that were dropped.
  unfoldable pub split_citations : List EvidenceItem → AccessScope → List EvidenceItem × List String
  split_citations [] scope = ([], [])
  split_citations (item ∷ items) scope =
      let (kept, dropped) = split_citations items scope in
      elim (mask_evidence item scope) [
        | none ↦ (kept, item.item_id ∷ dropped)
        | some masked ↦ (masked ∷ kept, dropped)
      ]

  -- The answer is sanitized first and inspected after.
  unfoldable pub filter_output : String → List EvidenceItem → AccessScope → DlpResult
  unfolding split_citations
  filter_output answer citations scope =
      let (secret_safe, secret_redactions) = sanitize_answer answer in
      let (inspected, redactions) = inspect_text secret_safe in
      let (kept, dropped) = split_citations citations scope in
      record {
        answer = inspected;
        citations = kept;
        redaction_count = redactions + secret_redactions;
        dropped_citation_ids = dropped;
      }

  -- `PrivacyService.mask_context` of app/privacy/service.py.
  unfoldable pub mask_context : List EvidenceItem → AccessScope → List EvidenceItem
  mask_context [] scope = []
  mask_context (item ∷ items) scope =
      let rest = mask_context items scope in
      elim (mask_evidence item scope) [ none ↦ rest | some masked ↦ masked ∷ rest ]
