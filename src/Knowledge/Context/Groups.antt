-- ===== src/Knowledge/Context/Groups.antt =====
-- context.py: one item for each group of conflicting evidence.
use multi_agent_rag_local.Knowledge.Context.Single.{filter-sorted}
use mathlib.Core.Option.{none-ne-some, some-injective}
use multi_agent_rag_local.Knowledge.Context.Winners.{consider_all-lookup, strongest-In, in_group}
use multi_agent_rag_local.Knowledge.Context.Resolved.{
  lookup-Keyed, resolve_conflicts-All, consider-cases, sort_items-All, sort_items-In, Keyed-In,
  consider_all-Keyed,
}
use multi_agent_rag_local.OrderedDict.{lookup-empty, OrderedDict, lookup}
use multi_agent_rag_local.Knowledge.Context.{
  no_conflicts, overrides, values, Conflicts, group_of, consider, consider_all, resolve_conflicts,
}
use multi_agent_rag_local.Domain.{EvidenceItem}
use multi_agent_rag_local.Common.{
  filter, refl, arith, Option-cases, In-eq, In-All, In-append_right, All-In, In, String, ◌≡◌, sym,
  ◌∙◌, inl, inr, true, false, none, some, List, [], ◌∷◌, ◌++◌, ◌==◌, eq_refl, Bool-cases, All,
  All-append, All-mono, there,
}

consider-ungrouped :
    (item : EvidenceItem) (c : Conflicts)
    → All (λ x. group_of x ≡ none) c.without_group
    → All (λ x. group_of x ≡ none) (consider item c).without_group
consider-ungrouped item c a = elim (consider-cases item c) [
  | inl (n, e) ↦ rw e (All-append (λ x. group_of x ≡ none) c.without_group (item ∷ []) a (n, tt))
  | inr (inl (g, notes, s, e)) ↦ rw e a
  | inr (inr (notes, e)) ↦ rw e a
]

consider_all-ungrouped :
    (items : List EvidenceItem) (c : Conflicts)
    → All (λ x. group_of x ≡ none) c.without_group
    → All (λ x. group_of x ≡ none) (consider_all items c).without_group
unfolding consider_all
consider_all-ungrouped [] c a = a
consider_all-ungrouped (item ∷ items) c a =
    consider_all-ungrouped items (consider item c) (consider-ungrouped item c a)

lookup-In :
    (group : String) (item : EvidenceItem) (d : OrderedDict EvidenceItem)
    → lookup group d ≡ some item
    → In item (values d)
unfolding lookup
lookup-In group item [] e = absurd (none-ne-some _ e)
lookup-In group item ((g, x) ∷ d) e = elim (Bool-cases (g == group)) [
  | inl same ↦ In-eq (some-injective x item (rw same at e))
  | inr other ↦ there (lookup-In group item d (rw other at e))
]

group_of-conflict_group :
    (item : EvidenceItem) (group : String)
    → group_of item ≡ some group
    → item.conflict_group ≡ some group
unfolding group_of
group_of-conflict_group item group e = elim (Option-cases item.conflict_group) [
  | inl n ↦ ground (arith, n, e)
  | inr (g, s) ↦ ground (arith, s, e)
]

group_of-named :
    (item : EvidenceItem) (group : String)
    → item.conflict_group ≡ some group
    → (group == "") ≡ false
    → group_of item ≡ some group
unfolding group_of
group_of-named item group s e = rw (s, e) refl

-- The winner of a group: the only item of the group that is kept.
module _ (items : List EvidenceItem) (group : String) where
  found-Only :
      (winner : EvidenceItem)
      → lookup group (consider_all items no_conflicts).winners ≡ some winner
      → All (λ x. group_of x ≡ some group → x ≡ winner) (resolve_conflicts items).0
  unfolding resolve_conflicts
  found-Only winner found =
      let c = consider_all items no_conflicts in
      let P : EvidenceItem → Type 0 = λ x. group_of x ≡ some group → x ≡ winner in
      sort_items-All P (c.without_group ++ values c.winners) (
        All-append P c.without_group (values c.winners)
          (All-mono (λ x. group_of x ≡ none) P c.without_group
            (λ x n s. absurd (none-ne-some _ (sym n ∙ s)))
            (consider_all-ungrouped items no_conflicts tt))
          (All-In P (values c.winners) λ x j s.
            let (g, of_group, at_g) =
              Keyed-In x c.winners (consider_all-Keyed items no_conflicts tt) j in
            let same : g ≡ group = some-injective g group (sym of_group ∙ s) in
            some-injective x winner (sym (rw same at at_g) ∙ found)))

  found-In :
      (winner : EvidenceItem)
      → lookup group (consider_all items no_conflicts).winners ≡ some winner
      → In winner (resolve_conflicts items).0
  unfolding resolve_conflicts
  found-In winner found =
      let c = consider_all items no_conflicts in
      sort_items-In winner (c.without_group ++ values c.winners) (
        In-append_right c.without_group (values c.winners) (lookup-In group winner c.winners found))

  found-group :
      (winner : EvidenceItem)
      → lookup group (consider_all items no_conflicts).winners ≡ some winner
      → winner.conflict_group ≡ some group
  found-group winner found = group_of-conflict_group winner group (
      lookup-Keyed group winner (consider_all items no_conflicts).winners
        (consider_all-Keyed items no_conflicts tt) found)

  found-single :
      (winner : EvidenceItem)
      → lookup group (consider_all items no_conflicts).winners ≡ some winner
      → filter (in_group group) (resolve_conflicts items).0 ≡ winner ∷ []
  unfolding resolve_conflicts
  found-single winner found =
      let c = consider_all items no_conflicts in
      filter-sorted group winner c.without_group c.winners
        (consider_all-ungrouped items no_conflicts tt) (consider_all-Keyed items no_conflicts tt)
        found

  -- Of the items with a conflict group that is not empty, exactly one is kept, and once. It is one of the
  -- given items and has this very group, no item of the group overrides it, and any kept item with the
  -- group is it.
  pub resolve_conflicts-winner :
      (item : EvidenceItem)
      → In item items
      → item.conflict_group ≡ some group
      → (group == "") ≡ false
      → let kept = (resolve_conflicts items).0 in
        (winner : EvidenceItem) × In winner kept
        × In winner items
        × (winner.conflict_group ≡ some group)
        × (overrides item winner ≡ false)
        × (filter (in_group group) kept ≡ winner ∷ [])
        × ((other : EvidenceItem)
            → In other kept
            → other.conflict_group ≡ some group
            → other ≡ winner)
  unfolding in_group
  resolve_conflicts-winner item i s named =
      let e = group_of-named item group s named in
      let inside : in_group group item ≡ true = rw (in_group, e) (eq_refl group) in
      let (winner, best, h) = strongest-In group items none item i inside in
      let found : lookup group (consider_all items no_conflicts).winners ≡ some winner =
        consider_all-lookup group items no_conflicts ∙ rw (lookup-empty group) best in
      let kept = found-In winner found in
      let given : (x : EvidenceItem) → In x (resolve_conflicts items).0 → In x items = λ x.
        In-All (λ y. In y items) (resolve_conflicts items).0 x
          (resolve_conflicts-All (λ y. In y items) items
            (All-In (λ y. In y items) items λ y j. j)) in
      (
        winner,
        kept,
        given winner kept,
        found-group winner found,
        h,
        found-single winner found,
        λ other k o.
            In-All (λ x. group_of x ≡ some group → x ≡ winner) (resolve_conflicts items).0 other
              (found-Only winner found) k (group_of-named other group o named),
      )
