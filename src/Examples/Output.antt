-- ===== src/Examples/Output.antt =====
-- dlp.py and citations.py on concrete evidence.
use multi_agent_rag_local.Orchestration.Nodes.Filter.{filtered_answer-cited, dlp_of}
use multi_agent_rag_local.Examples.Fixtures.{
  toy_answer, toy_world, toy_bundle, foreign_item, toy_request, toy_scope, own_item, toy_redactor,
  toy_services,
}
use multi_agent_rag_local.Orchestration.Nodes.{filtered_answer}
use multi_agent_rag_local.Synthesizer.Citations.Appearance.{renumber_first_appearance, numbers_seen}
use multi_agent_rag_local.Synthesizer.Citations.Numbering.{renumber-Renders, Renders}
use multi_agent_rag_local.Domain.{EvidenceItem}
use multi_agent_rag_local.Synthesizer.Citations.{
  citation, Shown, marker, same_reference, Piece, renumber,
}
use multi_agent_rag_local.Privacy.Dlp.Boundary.{
  IsMaskOf, evidence_is_authorized_iff, IsInScope, filter_output-Split, Split,
}
use multi_agent_rag_local.Privacy.Dlp.{mask_evidence, evidence_is_authorized, filter_output}
use multi_agent_rag_local.Common.{
  In, ◌≡◌, refl, ◌≢◌, ◌↔◌, true, some, List, [], ◌∷◌, length, contains, All,
}

evidence_is_authorized_iff_example :
    (evidence_is_authorized own_item toy_scope ≡ true) ↔ IsInScope own_item toy_scope
evidence_is_authorized_iff_example = evidence_is_authorized_iff own_item toy_scope refl

-- The item of another document is dropped.
filter_output_test :
    (filter_output toy_redactor "secret"
      (own_item ∷ foreign_item ∷ [])
      toy_scope).dropped_citation_ids
    ≡ "e2" ∷ []
unfolding filter_output mask_evidence evidence_is_authorized
filter_output_test = refl

filter_output-Split_example :
    let dlp = filter_output toy_redactor "secret" (own_item ∷ foreign_item ∷ []) toy_scope in
    Split toy_redactor toy_scope
      (own_item ∷ foreign_item ∷ [])
      dlp.citations
      dlp.dropped_citation_ids
filter_output-Split_example =
    filter_output-Split toy_redactor "secret" (own_item ∷ foreign_item ∷ []) toy_scope

abbrev cited_text : List Piece
cited_text = Piece.words "5 Nm" ∷ marker 2 ∷ marker 1 ∷ marker 7 ∷ marker 2 ∷ []

abbrev evidence : List EvidenceItem
evidence = own_item ∷ foreign_item ∷ []

-- Both survive: the second item is cited first, so it is number 1; the marker 7 has no item.
renumber_test :
    (renumber evidence (some ("e1" ∷ "e2" ∷ [])) cited_text []).0
    ≡ Shown.words "5 Nm" ∷ citation 1 ∷ citation 2 ∷ citation 1 ∷ []
unfolding renumber same_reference
renumber_test = refl

renumber-Renders_example :
    Renders evidence
      (some ("e1" ∷ "e2" ∷ []))
      (renumber evidence (some ("e1" ∷ "e2" ∷ [])) cited_text []).1
      cited_text
      (renumber evidence (some ("e1" ∷ "e2" ∷ [])) cited_text []).0
renumber-Renders_example = renumber-Renders evidence (some ("e1" ∷ "e2" ∷ [])) cited_text

renumber_first_appearance_example :
    numbers_seen 0 (renumber evidence (some ("e1" ∷ "e2" ∷ [])) cited_text []).0
    ≡ some (length (renumber evidence (some ("e1" ∷ "e2" ∷ [])) cited_text []).1)
renumber_first_appearance_example =
    renumber_first_appearance evidence (some ("e1" ∷ "e2" ∷ [])) cited_text

filtered_answer-cited_example :
    All
      (λ ref.
        In ref (dlp_of toy_services toy_scope toy_bundle toy_answer).citations
        × (item : EvidenceItem) × In item toy_bundle.items
        × (contains item.item_id toy_answer.evidence_ids ≡ true)
        × IsMaskOf toy_services.redactor toy_scope item ref)
      (filtered_answer toy_services toy_request toy_scope toy_bundle toy_world
        toy_answer).cited_evidence
filtered_answer-cited_example =
    filtered_answer-cited toy_services toy_request toy_scope toy_bundle toy_world toy_answer

loses_one : (dlp_of toy_services toy_scope toy_bundle toy_answer).dropped_citation_ids ≢ []
unfolding filter_output mask_evidence evidence_is_authorized
loses_one e = cc
