-- ===== src/Knowledge/Context/Resolved.antt =====
-- context.py: what `_resolve_conflicts` returns.
use mathlib.Core.Option.{none-ne-some}
use multi_agent_rag_local.OrderedDict.{lookup-empty, lookup-insert, lookup, OrderedDict, insert}
use multi_agent_rag_local.Domain.{EvidenceItem}
use multi_agent_rag_local.Knowledge.Context.{
  conflict_note, overrides, group_of, no_conflicts, values, Conflicts, consider, consider_all,
  precedes, resolve_conflicts, place, sort_items,
}
use multi_agent_rag_local.Common.{
  refl, ◌⊎◌, ◌≡◌, none, some, arith, eq_iff, eq_refl, In, String, inl, inr, List, [], ◌∷◌, ◌++◌,
  ◌==◌, Bool-cases, Option-cases, All, All-append, here, there,
}

place-In : (item : EvidenceItem) (xs : List EvidenceItem) → In item (place item xs)
unfolding place
place-In item [] = here
place-In item (x ∷ xs) = elim (Bool-cases (precedes x item)) [
  | inl e ↦ rw e (there (place-In item xs))
  | inr e ↦ rw e here
]

place-keeps : (item y : EvidenceItem) (xs : List EvidenceItem) → In y xs → In y (place item xs)
unfolding place
place-keeps item y [] i = elim i [ ]
place-keeps item _ (y ∷ xs) here = elim (Bool-cases (precedes y item)) [
  | inl e ↦ rw e here
  | inr e ↦ rw e (there here)
]
place-keeps item y (x ∷ xs) (there i) = elim (Bool-cases (precedes x item)) [
  | inl e ↦ rw e (there (place-keeps item y xs i))
  | inr e ↦ rw e (there (there i))
]

pub sort_items-In : (y : EvidenceItem) (xs : List EvidenceItem) → In y xs → In y (sort_items xs)
unfolding sort_items
sort_items-In y [] i = elim i [ ]
sort_items-In _ (y ∷ xs) here = place-In y (sort_items xs)
sort_items-In y (x ∷ xs) (there i) = place-keeps x y (sort_items xs) (sort_items-In y xs i)

-- One round adds an item without a group, or makes the item a winner, or leaves the items alone.
pub consider-cases :
    (item : EvidenceItem) (c : Conflicts)
    → ((group_of item ≡ none)
        × (consider item c ≡ record c { without_group = c.without_group ++ item ∷ [] }))
      ⊎ (((g : String) × (notes : List String) × (group_of item ≡ some g)
            × (consider item c ≡ record c { winners = insert g item c.winners; notes = notes }))
          ⊎ ((notes : List String) × (consider item c ≡ record c { notes = notes })))
unfolding consider
consider-cases item c = elim (Option-cases (group_of item)) [
  | inl e ↦ inl (e, rw (consider, e) refl)
  | inr (g, e) ↦ elim (Option-cases (lookup g c.winners)) [
    | inl f ↦ inr (inl (g, c.notes, e, rw (consider, e, f) refl))
    | inr (current, f) ↦ elim (Bool-cases (overrides item current)) [
      | inl o ↦
          inr
            (inl (g, c.notes ++ conflict_note g item current ∷ [], e, rw (consider, e, f, o) refl))
      | inr o ↦
          inr (inr (c.notes ++ conflict_note g current item ∷ [], rw (consider, e, f, o) refl))
    ]
  ]
]

module _ {ℓ} (P : EvidenceItem → Type ℓ) where
  place-All :
      (item : EvidenceItem) (xs : List EvidenceItem) → P item → All P xs → All P (place item xs)
  unfolding place
  place-All item [] p a = (p, tt)
  place-All item (x ∷ xs) p (q, a) = elim (Bool-cases (precedes x item)) [
    | inl e ↦ rw e (q, place-All item xs p a)
    | inr e ↦ rw e (p, (q, a))
  ]

  pub sort_items-All : (xs : List EvidenceItem) → All P xs → All P (sort_items xs)
  unfolding sort_items
  sort_items-All [] a = tt
  sort_items-All (x ∷ xs) (p, a) = place-All x (sort_items xs) p (sort_items-All xs a)

  insert-All :
      (group : String) (item : EvidenceItem) (d : OrderedDict EvidenceItem)
      → P item
      → All P (values d)
      → All P (values (insert group item d))
  unfolding insert
  insert-All group item [] p a = (p, tt)
  insert-All group item ((g, x) ∷ d) p (q, a) = elim (Bool-cases (g == group)) [
    | inl e ↦ rw e (p, a)
    | inr e ↦ rw e (q, insert-All group item d p a)
  ]

  abbrev Both : Conflicts → Type ℓ
  Both c = All P c.without_group × All P (values c.winners)

  consider-All : (item : EvidenceItem) (c : Conflicts) → P item → Both c → Both (consider item c)
  consider-All item c p (a, b) = elim (consider-cases item c) [
    | inl (n, e) ↦ rw e (All-append P c.without_group (item ∷ []) a (p, tt), b)
    | inr (inl (g, notes, s, e)) ↦ rw e (a, insert-All g item c.winners p b)
    | inr (inr (notes, e)) ↦ rw e (a, b)
  ]

  consider_all-All :
      (items : List EvidenceItem) (c : Conflicts)
      → All P items
      → Both c
      → Both (consider_all items c)
  unfolding consider_all
  consider_all-All [] c a b = b
  consider_all-All (item ∷ items) c (p, a) b =
      consider_all-All items (consider item c) a (consider-All item c p b)

  -- What holds of every item holds of every item that is kept.
  pub resolve_conflicts-All :
      (items : List EvidenceItem) → All P items → All P (resolve_conflicts items).0
  unfolding resolve_conflicts
  resolve_conflicts-All items a =
      let c = consider_all items no_conflicts in
      let (x, y) = consider_all-All items no_conflicts a (tt, tt) in
      sort_items-All (c.without_group ++ values c.winners)
        (All-append P c.without_group (values c.winners) x y)

-- The groups of a dict of winners are those of its items, and no group comes twice.
abbrev pub Keyed : OrderedDict EvidenceItem → Type 0
Keyed [] = Unit
Keyed ((group, item) ∷ d) = (group_of item ≡ some group) × (lookup group d ≡ none) × Keyed d

insert-Keyed :
    (group : String) (item : EvidenceItem) (d : OrderedDict EvidenceItem)
    → group_of item ≡ some group
    → Keyed d
    → Keyed (insert group item d)
unfolding insert
insert-Keyed group item [] e k = (e, lookup-empty group, tt)
insert-Keyed group item ((g, x) ∷ d) e (f, new, k) = elim (Bool-cases (g == group)) [
  | inl same ↦ rw same (e, rw ((eq_iff g group).0 same) at new, k)
  | inr other ↦
      let apart : lookup g (insert group item d) ≡ none =
        ground (arith, lookup-insert group g item d, new, eq_iff group g, eq_iff g group) in
      rw other (f, apart, insert-Keyed group item d e k)
]

pub Keyed-In :
    (item : EvidenceItem) (d : OrderedDict EvidenceItem)
    → Keyed d
    → In item (values d)
    → (group : String) × (group_of item ≡ some group) × (lookup group d ≡ some item)
unfolding lookup
Keyed-In item [] k i = elim i [ ]
Keyed-In _ ((g, item) ∷ d) (e, new, k) here = (g, e, ground (arith, eq_refl g))
Keyed-In item ((g, x) ∷ d) (e, new, k) (there i) =
    let (group, f, found) = Keyed-In item d k i in
    (group, f, ground (arith, eq_iff g group, found, new))

pub lookup-Keyed :
    (group : String) (item : EvidenceItem) (d : OrderedDict EvidenceItem)
    → Keyed d
    → lookup group d ≡ some item
    → group_of item ≡ some group
unfolding lookup
lookup-Keyed group item [] k found = absurd (none-ne-some _ found)
lookup-Keyed group item ((g, x) ∷ d) (e, new, k) found =
    ground (arith, eq_iff g group, e, found, lookup-Keyed group item d k)

consider-Keyed :
    (item : EvidenceItem) (c : Conflicts) → Keyed c.winners → Keyed (consider item c).winners
consider-Keyed item c k = elim (consider-cases item c) [
  | inl (n, e) ↦ rw e k
  | inr (inl (g, notes, s, e)) ↦ rw e (insert-Keyed g item c.winners s k)
  | inr (inr (notes, e)) ↦ rw e k
]

pub consider_all-Keyed :
    (items : List EvidenceItem) (c : Conflicts)
    → Keyed c.winners
    → Keyed (consider_all items c).winners
unfolding consider_all
consider_all-Keyed [] c k = k
consider_all-Keyed (item ∷ items) c k =
    consider_all-Keyed items (consider item c) (consider-Keyed item c k)
