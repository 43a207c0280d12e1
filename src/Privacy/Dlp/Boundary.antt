-- ===== src/Privacy/Dlp/Boundary.antt =====
-- app/privacy/dlp.py: what passes the two masking functions, against the scope of the caller.
use multi_agent_rag_local.Common.{
  In, here, there, contains-intersection, refl, sym, ◌∙◌, if◌then◌else◌, Bool-cases, intersection,
  ◌≡◌, ◌⊎◌, ◌↔◌, inl, inr, Bool, true, false, none, some, List, [], ◌∷◌, String, arith,
  Option-cases, contains, meets,
}
use multi_agent_rag_local.Domain.{AccessScope, EvidenceItem, EvidenceLayer}
use multi_agent_rag_local.Privacy.Dlp.{
  Redactor, evidence_is_authorized, mask_evidence, split_citations, filter_output, mask_context,
  is_empty, documents_authorized, by_layer, content_fields,
}
use mathlib.Core.Bool.{false≢true}
use mathlib.Core.Option.{some-injective, none-ne-some}

-- What the scope asks of a user document.
pub record IsInScope (item : EvidenceItem) (scope : AccessScope) : Type 0 where
  pub bounded : (is_empty scope.document_ids ≡ false) ⊎ (is_empty scope.allowed_sources ≡ false)
  pub document :
      (is_empty scope.document_ids ≡ true) ⊎ (contains item.document_id scope.document_ids ≡ true)
  pub source :
      (is_empty scope.allowed_sources ≡ true) ⊎ (contains item.source scope.allowed_sources ≡ true)
  pub acl : (is_empty item.acl_tags ≡ true) ⊎ (meets item.acl_tags scope.acl_tags ≡ true)

abbrev pub is_user_document : EvidenceLayer → Bool
is_user_document EvidenceLayer.evidence = true
is_user_document EvidenceLayer.knowledge = true
is_user_document _ = false

documents_authorized_iff :
    (item : EvidenceItem) (scope : AccessScope)
    → (documents_authorized item scope ≡ true) ↔ IsInScope item scope
unfolding documents_authorized
documents_authorized_iff item scope = ((λ h. ground arith), (λ h. ground arith))

by_layer_iff :
    (l : EvidenceLayer) (item : EvidenceItem) (scope : AccessScope)
    → is_user_document l ≡ true
    → (by_layer l item scope ≡ true) ↔ IsInScope item scope
unfolding by_layer
by_layer_iff EvidenceLayer.evidence item scope h = documents_authorized_iff item scope
by_layer_iff EvidenceLayer.knowledge item scope h = documents_authorized_iff item scope
by_layer_iff EvidenceLayer.memory item scope h = absurd (false≢true h)
by_layer_iff EvidenceLayer.web item scope h = absurd (false≢true h)
by_layer_iff EvidenceLayer.tool item scope h = absurd (false≢true h)

-- A user document is authorized exactly when the scope names documents or sources at all, and the
-- document, its source and its tags each meet the restriction that the scope or the item puts on
-- them. An empty scope authorizes no document.
pub evidence_is_authorized_iff :
    (item : EvidenceItem) (scope : AccessScope)
    → is_user_document item.layer ≡ true
    → (evidence_is_authorized item scope ≡ true) ↔ IsInScope item scope
unfolding evidence_is_authorized
evidence_is_authorized_iff item scope h = by_layer_iff item.layer item scope h

module _ (r : Redactor) where
  open r use {inspect_text, sanitize_answer}

  -- A masked item stands for an authorized one. Its content is inspected where the scope grants that
  -- field and a placeholder elsewhere, its artifact is there only where the scope grants it, and all
  -- else is as it was.
  pub record IsMaskOf (scope : AccessScope) (item masked : EvidenceItem) : Type 0 where
    pub authorized : evidence_is_authorized item scope ≡ true
    pub masked_content :
        ((contains "content" scope.allowed_fields ≡ true)
          × (masked.content ≡ (inspect_text item.content).0))
        ⊎ ((contains "content" scope.allowed_fields ≡ false)
            × (masked.content ≡ "[REDACTED_FIELD]"))
    pub masked_artifact :
        ((contains "artifact_uri" scope.allowed_fields ≡ true)
          × (masked.artifact_uri ≡ item.artifact_uri))
        ⊎ ((contains "artifact_uri" scope.allowed_fields ≡ false) × (masked.artifact_uri ≡ none))
    pub all_else :
        masked ≡ record item { content = masked.content; artifact_uri = masked.artifact_uri }

  -- A field of the content table is granted as the scope says.
  granted_content :
      (scope : AccessScope)
      → contains "content" (intersection scope.allowed_fields content_fields)
        ≡ contains "content" scope.allowed_fields
  granted_content scope =
      ground (arith, contains-intersection "content" scope.allowed_fields content_fields)

  granted_artifact :
      (scope : AccessScope)
      → contains "artifact_uri" (intersection scope.allowed_fields content_fields)
        ≡ contains "artifact_uri" scope.allowed_fields
  granted_artifact scope =
      ground (arith, contains-intersection "artifact_uri" scope.allowed_fields content_fields)

  abbrev mask : AccessScope → EvidenceItem → EvidenceItem
  mask scope item = record item {
    content =
        if contains "content" scope.allowed_fields
        then (inspect_text item.content).0
        else "[REDACTED_FIELD]";
    artifact_uri = if contains "artifact_uri" scope.allowed_fields then item.artifact_uri else none;
  }

  mask_evidence-mask :
      (item : EvidenceItem) (scope : AccessScope)
      → evidence_is_authorized item scope ≡ true
      → mask_evidence r item scope ≡ some (mask scope item)
  unfolding mask_evidence
  mask_evidence-mask item scope e = rw (e, granted_content scope, granted_artifact scope) refl

  mask-IsMaskOf :
      (item : EvidenceItem) (scope : AccessScope)
      → evidence_is_authorized item scope ≡ true
      → IsMaskOf scope item (mask scope item)
  mask-IsMaskOf item scope e = record {
    authorized = e;
    masked_content = elim (Bool-cases (contains "content" scope.allowed_fields)) [
      | inl c ↦ inl (c, rw c refl)
      | inr c ↦ inr (c, rw c refl)
    ];
    masked_artifact = elim (Bool-cases (contains "artifact_uri" scope.allowed_fields)) [
      | inl c ↦ inl (c, rw c refl)
      | inr c ↦ inr (c, rw c refl)
    ];
    all_else = refl;
  }

  pub mask_evidence-IsMaskOf :
      (item : EvidenceItem) (scope : AccessScope) {masked : EvidenceItem}
      → mask_evidence r item scope ≡ some masked
      → IsMaskOf scope item masked
  unfolding mask_evidence
  mask_evidence-IsMaskOf item scope {masked} h =
      elim (Bool-cases (evidence_is_authorized item scope)) [
        | inl e ↦
            let same : mask scope item ≡ masked =
              some-injective (mask scope item) masked (sym (mask_evidence-mask item scope e) ∙ h) in
            rw same at (mask-IsMaskOf item scope e)
        | inr e ↦ absurd (none-ne-some _ (rw (mask_evidence, e) at h))
      ]

  pub mask_evidence-none :
      (item : EvidenceItem) (scope : AccessScope)
      → mask_evidence r item scope ≡ none
      → evidence_is_authorized item scope ≡ false
  unfolding mask_evidence
  mask_evidence-none item scope h = ground arith

  -- How a list of items divides into the masks that are kept and the ids that are dropped, in order.
  pub data Split (scope : AccessScope)
      : List EvidenceItem → List EvidenceItem → List String → Type 0 where
    done : Split scope [] [] []
    keep :
        {item masked : EvidenceItem} {items kept : List EvidenceItem} {dropped : List String}
        → IsMaskOf scope item masked
        → Split scope items kept dropped
        → Split scope (item ∷ items) (masked ∷ kept) dropped
    leave :
        {item : EvidenceItem} {items kept : List EvidenceItem} {dropped : List String}
        → evidence_is_authorized item scope ≡ false
        → Split scope items kept dropped
        → Split scope (item ∷ items) kept (item.item_id ∷ dropped)

  -- Every kept item is the mask of an item of the list.
  pub Split-In :
      {scope : AccessScope} {items kept : List EvidenceItem} {dropped : List String}
      {masked : EvidenceItem}
      → Split scope items kept dropped
      → In masked kept
      → (item : EvidenceItem) × In item items × IsMaskOf scope item masked
  Split-In done i = elim i [ ]
  Split-In (keep {item} m s) here = (item, here, m)
  Split-In (keep m s) (there i) = let (item, j, n) = Split-In s i in (item, there j, n)
  Split-In (leave h s) i = let (item, j, n) = Split-In s i in (item, there j, n)

  split_citations-Split :
      (items : List EvidenceItem) (scope : AccessScope)
      → Split scope items (split_citations r items scope).0 (split_citations r items scope).1
  unfolding split_citations
  split_citations-Split [] scope = done
  split_citations-Split (item ∷ items) scope = elim (Option-cases (mask_evidence r item scope)) [
    | inl out ↦
        rw (out, split_citations)
          (leave (mask_evidence-none item scope out) (split_citations-Split items scope))
    | inr (masked, e) ↦
        rw (e, split_citations)
          (keep (mask_evidence-IsMaskOf item scope e) (split_citations-Split items scope))
  ]

  -- Output DLP keeps, in order, the masks of exactly the authorized citations, and reports the ids
  -- of exactly the others as dropped. A mask has the inspected content if the scope grants the field
  -- `content`, and the placeholder otherwise; the artifact's address if the scope grants that field, and
  -- none otherwise; and all else as the citation has it.
  pub filter_output-Split :
      (answer : String) (citations : List EvidenceItem) (scope : AccessScope)
      → let dlp = filter_output r answer citations scope in
        Split scope citations dlp.citations dlp.dropped_citation_ids
  unfolding filter_output
  filter_output-Split answer citations scope = split_citations-Split citations scope

  -- The context that a model is shown holds, in order, the masks of exactly the authorized items.
  pub mask_context-Split :
      (items : List EvidenceItem) (scope : AccessScope)
      → Split scope items (mask_context r items scope) (split_citations r items scope).1
  unfolding mask_context split_citations
  mask_context-Split [] scope = done
  mask_context-Split (item ∷ items) scope = elim (Option-cases (mask_evidence r item scope)) [
    | inl out ↦
        rw (out, mask_context, split_citations)
          (leave (mask_evidence-none item scope out) (mask_context-Split items scope))
    | inr (masked, e) ↦
        rw (e, mask_context, split_citations)
          (keep (mask_evidence-IsMaskOf item scope e) (mask_context-Split items scope))
  ]
