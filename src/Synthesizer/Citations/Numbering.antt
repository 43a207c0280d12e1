-- ===== src/Synthesizer/Citations/Numbering.antt =====
-- citations.py: the numbers in the text, against the reference list.
use multi_agent_rag_local.Common.{
  get_elem?-In, In, zero, All-append, All, ℕ, suc, ◌+◌, ◌≡◌, refl, sym, ap, ◌∙◌, inl, inr, true,
  Option, none, some, List, [], ◌∷◌, ◌++◌, String, arith, eq_refl, length, get_elem?,
  get_elem?-append_left, get_elem?-append_end, Option-cases, Bool-cases,
}
use mathlib.Core.Option.{some-injective, none-ne-some}
use mathlib.Core.List.{append-nil, append_assoc}
use multi_agent_rag_local.Domain.{EvidenceItem}
use multi_agent_rag_local.Synthesizer.Citations.{
  is_allowed, Piece, Shown, marker, citation, same_reference, number_of, evidence_at, assign, kept,
  renumber, same_page,
}

-- `n` is the place, counted from 1, of an item of the same source and page.
pub record PointsAt (references : List EvidenceItem) (n : ℕ) (item : EvidenceItem) : Type 0 where
  pub index : ℕ
  pub number : n ≡ suc index
  pub target : EvidenceItem
  pub found : get_elem? references index ≡ some target
  pub same : same_reference target item ≡ true

same_page_refl : (p : Option ℕ) → same_page p p ≡ true
same_page_refl none = refl
same_page_refl (some n) = ground arith

same_reference_refl : (item : EvidenceItem) → same_reference item item ≡ true
unfolding same_reference
same_reference_refl item = rw (eq_refl, same_page_refl)

PointsAt-append :
    {references : List EvidenceItem} {n : ℕ} {item : EvidenceItem} (more : List EvidenceItem)
    → PointsAt references n item
    → PointsAt (references ++ more) n item
PointsAt-append {references} more p = record {
  index = p.index;
  number = p.number;
  target = p.target;
  found = get_elem?-append_left references more p.index p.target p.found;
  same = p.same;
}

pub number_of_sound :
    (item : EvidenceItem) (references : List EvidenceItem) (from : ℕ) {n : ℕ}
    → number_of item references from ≡ some n
    → (i : ℕ) × (n ≡ from + suc i)
      × (target : EvidenceItem) × (get_elem? references i ≡ some target)
      × (same_reference target item ≡ true)
unfolding number_of
number_of_sound item [] from h = cc
number_of_sound item (r ∷ rs) from h = elim (Bool-cases (same_reference r item)) [
  | inl same ↦ (0, ground arith, r, refl, same)
  | inr other ↦
      let (i, e, target, found, same) = number_of_sound item rs (suc from) (rw other at h) in
      (suc i, omega arith, target, found, same)
]

-- A number that is assigned points at its item, in a list that only grew at its end.
assign-PointsAt :
    (item : EvidenceItem) (references : List EvidenceItem)
    → let (n, references') = assign item references in
      PointsAt references' n item × (more : List EvidenceItem) × (references' ≡ references ++ more)
unfolding assign
assign-PointsAt item references = elim (Option-cases (number_of item references 0)) [
  | inl new ↦
      rw (new, assign)
        (
          record {
            index = length references;
            number = omega arith;
            target = item;
            found = get_elem?-append_end references item;
            same = same_reference_refl item;
          },
          item ∷ [],
          refl,
        )
  | inr (n, old) ↦
      let (i, e, target, found, same) = number_of_sound item references 0 old in
      rw (old, assign)
        (
          record { index = i; number = omega arith; target = target; found = found; same = same },
          [],
          sym (append-nil references),
        )
]

module _ (evidence : List EvidenceItem) (keep_item_ids : Option (List String)) where
  -- What the text shows for each piece, against the final reference list.
  pub data Renders (final : List EvidenceItem) : List Piece → List Shown → Type 0 where
    done : Renders final [] []
    plain :
        {w : String} {ps : List Piece} {out : List Shown}
        → Renders final ps out
        → Renders final (Piece.words w ∷ ps) (Shown.words w ∷ out)
    dropped :
        {k : ℕ} {ps : List Piece} {out : List Shown}
        → kept keep_item_ids (evidence_at evidence k) ≡ none
        → Renders final ps out
        → Renders final (marker k ∷ ps) out
    cited :
        {k n : ℕ} {item : EvidenceItem} {ps : List Piece} {out : List Shown}
        → kept keep_item_ids (evidence_at evidence k) ≡ some item
        → PointsAt final n item
        → Renders final ps out
        → Renders final (marker k ∷ ps) (citation n ∷ out)

  renumber-extends :
      (ps : List Piece) (references : List EvidenceItem)
      → (more : List EvidenceItem) × ((renumber evidence keep_item_ids ps references).1
          ≡ references ++ more)
  unfolding renumber
  renumber-extends [] references = ([], sym (append-nil references))
  renumber-extends (Piece.words w ∷ ps) references = renumber-extends ps references
  renumber-extends (marker k ∷ ps) references =
      elim (Option-cases (kept keep_item_ids (evidence_at evidence k))) [
        | inl out ↦ rw (out, renumber) (renumber-extends ps references)
        | inr (item, e) ↦
            let (_, first, same) = assign-PointsAt item references in
            let (more, rest) = renumber-extends ps (assign item references).1 in
            rw (e, renumber)
              (first ++ more, rest ∙ ap (λ l. l ++ more) same ∙ append_assoc references first more)
      ]

  renumber-Renders_from :
      (ps : List Piece) (references : List EvidenceItem)
      → let (shown, final) = renumber evidence keep_item_ids ps references in Renders final ps shown
  unfolding renumber
  renumber-Renders_from [] references = done
  renumber-Renders_from (Piece.words w ∷ ps) references =
      plain (renumber-Renders_from ps references)
  renumber-Renders_from (marker k ∷ ps) references =
      elim (Option-cases (kept keep_item_ids (evidence_at evidence k))) [
        | inl out ↦ rw (out, renumber) (dropped out (renumber-Renders_from ps references))
        | inr (item, e) ↦
            let p = assign-PointsAt item references in
            let (more, rest) = renumber-extends ps (assign item references).1 in
            rw (e, renumber)
              (cited e (rw rest (PointsAt-append more p.0))
                (renumber-Renders_from ps (assign item references).1))
      ]

  -- In the rewritten text each marker is dropped, where its index is out of range or its item did
  -- not survive output filtering, or shows a number whose place in the final reference list holds
  -- an item of the same source and page. Words stay as they are, in order.
  pub renumber-Renders :
      (ps : List Piece)
      → Renders
          (renumber evidence keep_item_ids ps []).1
          ps
          (renumber evidence keep_item_ids ps []).0
  renumber-Renders ps = renumber-Renders_from ps []

  -- An item of the evidence that is to be kept.
  abbrev pub IsKept : EvidenceItem → Type 0
  IsKept item = In item evidence × (is_allowed keep_item_ids item.item_id ≡ true)

  evidence_at-In :
      (k : ℕ) (item : EvidenceItem) → evidence_at evidence k ≡ some item → In item evidence
  unfolding evidence_at
  evidence_at-In zero item h = absurd (none-ne-some _ h)
  evidence_at-In (suc i) item h = get_elem?-In evidence i item h

  kept-allowed :
      (o : Option EvidenceItem) (item : EvidenceItem)
      → kept keep_item_ids o ≡ some item
      → (o ≡ some item) × (is_allowed keep_item_ids item.item_id ≡ true)
  kept-allowed none item h = absurd (none-ne-some _ h)
  kept-allowed (some x) item h = elim (Bool-cases (is_allowed keep_item_ids x.item_id)) [
    | inl e ↦ let same = some-injective x item (rw e at h) in (ap some same, rw same at e)
    | inr e ↦ absurd (none-ne-some _ (rw e at h))
  ]

  assign-IsKept :
      (item : EvidenceItem) (references : List EvidenceItem)
      → IsKept item
      → All IsKept references
      → All IsKept (assign item references).1
  unfolding assign
  assign-IsKept item references k h = elim (Option-cases (number_of item references 0)) [
    | inl new ↦ rw (new, assign) (All-append IsKept references (item ∷ []) h (k, tt))
    | inr (n, old) ↦ rw (old, assign) h
  ]

  renumber-IsKept_from :
      (ps : List Piece) (references : List EvidenceItem)
      → All IsKept references
      → All IsKept (renumber evidence keep_item_ids ps references).1
  unfolding renumber
  renumber-IsKept_from [] references h = h
  renumber-IsKept_from (Piece.words w ∷ ps) references h = renumber-IsKept_from ps references h
  renumber-IsKept_from (marker k ∷ ps) references h =
      elim (Option-cases (kept keep_item_ids (evidence_at evidence k))) [
        | inl out ↦ rw (out, renumber) (renumber-IsKept_from ps references h)
        | inr (item, e) ↦
            let (at_k, allowed) = kept-allowed (evidence_at evidence k) item e in
            rw (e, renumber)
              (renumber-IsKept_from ps (assign item references).1
                (assign-IsKept item references (evidence_at-In k item at_k, allowed) h))
      ]

  -- Every reference of the list is an item of the evidence that is to be kept.
  pub renumber-IsKept : (ps : List Piece) → All IsKept (renumber evidence keep_item_ids ps []).1
  renumber-IsKept ps = renumber-IsKept_from ps [] tt
