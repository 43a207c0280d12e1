-- ===== src/Orchestration/Nodes/Filter.antt =====
-- nodes.py, `output_filter`: what the filtered answer shows.
use mathlib.Core.Bool.{false≢true}
use multi_agent_rag_local.Privacy.Dlp.Boundary.{IsMaskOf, Split-In, filter_output-Split}
use multi_agent_rag_local.Common.{
  In-eq, In-filter, In-map, In, refl, sym, ap, ◌∙◌, ◌⊎◌, inl, inr, some, List, ◌∷◌, ◌==◌, eq_iff,
  Bool-cases, All-mono, there, ◌≡◌, ◌≢◌, true, false, [], map, arith, filter, contains, All,
}
use multi_agent_rag_local.Domain.{
  EvidenceItem, ValidationStatus, OrchestrationRequest, AccessScope, EvidenceBundle, FinalAnswer,
  ValidationState, DlpResult,
}
use multi_agent_rag_local.Privacy.Dlp.{filter_output}
use multi_agent_rag_local.Synthesizer.Citations.{renumber, number_evidence_markers}
use multi_agent_rag_local.Synthesizer.Citations.Numbering.{IsKept, renumber-IsKept}
use multi_agent_rag_local.Orchestration.Stage.{World}
use multi_agent_rag_local.Orchestration.Services.{Services}
use multi_agent_rag_local.Orchestration.Nodes.Output.{
  filtered_answer, output_validation, substitute, ids,
}

-- What output DLP makes of the earlier answer and of the evidence that it cites.
abbrev pub dlp_of : Services → AccessScope → EvidenceBundle → FinalAnswer → DlpResult
dlp_of svc scope evidence answer =
    filter_output svc.redactor answer.answer
      (filter (λ item. contains item.item_id answer.evidence_ids) evidence.items) scope

-- An item is replaced by a mask of the same id, the last one, if there is any.
substitute-cases :
    (masked : List EvidenceItem) (item : EvidenceItem)
    → ((substitute masked item ≡ item) × (contains item.item_id (ids masked) ≡ false))
      ⊎ (In (substitute masked item) masked × ((substitute masked item).item_id ≡ item.item_id))
unfolding substitute
substitute-cases [] item = inl (refl, refl)
substitute-cases (m ∷ masked) item = elim (Bool-cases (m.item_id == item.item_id)) [
  | inl same ↦
      let hit : substitute (m ∷ masked) item ≡ substitute masked m = rw same refl in
      let named = (eq_iff m.item_id item.item_id).0 same in
      elim (substitute-cases masked m) [
        | inl (e, _) ↦
            inr (In-eq (sym (hit ∙ e)), ap (λ (x : EvidenceItem). x.item_id) (hit ∙ e) ∙ named)
        | inr (i, e) ↦ inr (there (rw hit i), ap (λ (x : EvidenceItem). x.item_id) hit ∙ e ∙ named)
      ]
  | inr other ↦
      let miss : substitute (m ∷ masked) item ≡ substitute masked item = rw other refl in
      elim (substitute-cases masked item) [
        | inl (e, h) ↦ inl (miss ∙ e, ground (arith, h, other))
        | inr (i, e) ↦ inr (there (rw miss i), ap (λ (x : EvidenceItem). x.item_id) miss ∙ e)
      ]
]

-- What a substituted item is, if its id is that of a mask.
substituted-In :
    (masked items : List EvidenceItem) (ref : EvidenceItem)
    → In ref (map (substitute masked) items)
    → contains ref.item_id (ids masked) ≡ true
    → In ref masked
substituted-In masked items ref i h =
    let (item, _, same) = In-map (substitute masked) items i in
    elim (substitute-cases masked item) [
      | inl (e, out) ↦
          let named : ref.item_id ≡ item.item_id =
            ap (λ (x : EvidenceItem). x.item_id) (sym same ∙ e) in
          absurd (false≢true (sym out ∙ rw named at h))
      | inr (j, e) ↦ rw same at j
    ]

-- Every reference that the filtered answer shows is a citation that output DLP kept: it is the mask of
-- an item of the evidence that the scope authorizes and that the earlier answer cited.
pub filtered_answer-cited :
    (svc : Services) (request : OrchestrationRequest) (scope : AccessScope)
    (evidence : EvidenceBundle) (w : World) (answer : FinalAnswer)
    → All
        (λ ref.
          In ref (dlp_of svc scope evidence answer).citations
          × (item : EvidenceItem) × In item evidence.items
          × (contains item.item_id answer.evidence_ids ≡ true)
          × IsMaskOf svc.redactor scope item ref)
        (filtered_answer svc request scope evidence w answer).cited_evidence
unfolding filtered_answer number_evidence_markers
filtered_answer-cited svc request scope evidence w answer =
    let dlp = dlp_of svc scope evidence answer in
    let cited = filter (λ item. contains item.item_id answer.evidence_ids) evidence.items in
    let indexed = map (substitute dlp.citations) evidence.items in
    let keep = some (ids dlp.citations) in
    All-mono (IsKept indexed keep) _ (renumber indexed keep (svc.tools.pieces dlp.answer) []).1
      (λ ref (i, h).
        let kept = substituted-In dlp.citations evidence.items ref i h in
        let (item, j, m) =
          Split-In svc.redactor (filter_output-Split svc.redactor answer.answer cited scope) kept in
        let (k, named) = In-filter (λ x. contains x.item_id answer.evidence_ids) evidence.items j in
        (kept, item, k, named, m))
      (renumber-IsKept indexed keep (svc.tools.pieces dlp.answer))

drop_case :
    (dlp : DlpResult) (v : ValidationStatus)
    → dlp.dropped_citation_ids ≢ []
    → ((output_validation dlp v).state ≡ ValidationState.degraded)
      × ((output_validation dlp v).approved ≡ false)
unfolding output_validation
drop_case dlp v h = ground arith

-- An answer that lost a citation to output DLP is no longer approved.
pub filtered_answer-degraded :
    (svc : Services) (request : OrchestrationRequest) (scope : AccessScope)
    (evidence : EvidenceBundle) (w : World) (answer : FinalAnswer)
    → (dlp_of svc scope evidence answer).dropped_citation_ids ≢ []
    → let v = (filtered_answer svc request scope evidence w answer).validation in
      (v.state ≡ ValidationState.degraded) × (v.approved ≡ false)
unfolding filtered_answer output_validation
filtered_answer-degraded svc request scope evidence w answer h =
    drop_case (dlp_of svc scope evidence answer) answer.validation h
