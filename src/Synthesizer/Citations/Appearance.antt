-- ===== src/Synthesizer/Citations/Appearance.antt =====
-- citations.py: the order in which numbers appear in a text.
use multi_agent_rag_local.Common.{
  zero, refl, ap, ◌∙◌, none, length-append, inr, nat_eq, ◌+◌, inl, leb, Option-cases, arith,
  if◌then◌else◌, ◌<◌, [], length, some, suc, ◌∷◌, Option, String, get_elem?, ◌≡◌, ◌≤◌, List, ℕ,
}
use multi_agent_rag_local.Domain.{EvidenceItem}
use multi_agent_rag_local.Synthesizer.Citations.{
  Piece, Shown, marker, citation, number_of, evidence_at, assign, kept, renumber,
}
use multi_agent_rag_local.Synthesizer.Citations.Numbering.{number_of_sound}

-- Reads the numbers of a text from the left: each is one already seen, or the next new one.
-- `some n` is the number of different ones, and `none` a number that came too early.
abbrev pub numbers_seen : ℕ → List Shown → Option ℕ
numbers_seen seen [] = some seen
numbers_seen seen (Shown.words w ∷ out) = numbers_seen seen out
numbers_seen seen (citation n ∷ out) =
    let repeated = numbers_seen seen out in
    let new = numbers_seen (suc seen) out in
    if leb n seen then repeated else if nat_eq n (suc seen) then new else none

get_elem?-some-lt :
    {A : Type 0} (xs : List A) (i : ℕ) {a : A} → get_elem? xs i ≡ some a → i < length xs
get_elem?-some-lt [] i h = cc
get_elem?-some-lt (x ∷ xs) zero h = omega arith
get_elem?-some-lt (x ∷ xs) (suc i) h = omega (arith, get_elem?-some-lt xs i h)

numbers_seen_old :
    (n seen : ℕ) (out : List Shown)
    → n ≤ seen
    → numbers_seen seen (citation n ∷ out) ≡ numbers_seen seen out
numbers_seen_old n seen out h = ground arith

numbers_seen_new :
    (n seen : ℕ) (out : List Shown)
    → n ≡ suc seen
    → numbers_seen seen (citation n ∷ out) ≡ numbers_seen (suc seen) out
numbers_seen_new n seen out h = ground arith

module _ (evidence : List EvidenceItem) (keep_item_ids : Option (List String)) where
  assign-seen :
      (item : EvidenceItem) (references : List EvidenceItem) (out : List Shown)
      → let (n, references') = assign item references in
        numbers_seen (length references) (citation n ∷ out) ≡ numbers_seen (length references') out
  unfolding assign
  assign-seen item references out = elim (Option-cases (number_of item references 0)) [
    | inl new ↦
        rw (new, assign)
          (numbers_seen_new (length references + 1) (length references) out (omega arith)
            ∙ ap (λ k. numbers_seen k out) (omega (arith, length-append references (item ∷ []))))
    | inr (n, old) ↦
        let (i, e, target, found, _) = number_of_sound item references 0 old in
        rw (old, assign)
          (numbers_seen_old n (length references) out
            (omega (arith, get_elem?-some-lt references i found)))
  ]

  renumber-seen_from :
      (ps : List Piece) (references : List EvidenceItem)
      → let (shown, final) = renumber evidence keep_item_ids ps references in
        numbers_seen (length references) shown ≡ some (length final)
  unfolding renumber
  renumber-seen_from [] references = refl
  renumber-seen_from (Piece.words w ∷ ps) references = renumber-seen_from ps references
  renumber-seen_from (marker k ∷ ps) references =
      elim (Option-cases (kept keep_item_ids (evidence_at evidence k))) [
        | inl out ↦ rw (out, renumber) (renumber-seen_from ps references)
        | inr (item, e) ↦
            let references' = (assign item references).1 in
            rw (e, renumber)
              (assign-seen item references (renumber evidence keep_item_ids ps references').0
                ∙ renumber-seen_from ps references')
      ]

  -- The numbers of the text appear in the order 1, 2, 3 and so on, each new one directly after the
  -- last new one, and there are as many as references: the list has no entry that is not cited.
  pub renumber_first_appearance :
      (ps : List Piece)
      → let (shown, final) = renumber evidence keep_item_ids ps [] in
        numbers_seen 0 shown ≡ some (length final)
  renumber_first_appearance ps = renumber-seen_from ps []
