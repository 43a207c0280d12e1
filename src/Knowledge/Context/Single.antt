-- ===== src/Knowledge/Context/Single.antt =====
-- context.py: a group of conflicting evidence has one item among those that are kept.
use multi_agent_rag_local.Knowledge.Context.{sort_items, values, group_of, place}
use multi_agent_rag_local.Knowledge.Context.Winners.{in_group}
use multi_agent_rag_local.Knowledge.Context.Resolved.{Keyed}
use multi_agent_rag_local.OrderedDict.{OrderedDict, lookup}
use multi_agent_rag_local.Domain.{EvidenceItem}
use multi_agent_rag_local.Common.{
  String, Bool, ◌≡◌, refl, inl, inr, true, false, none, some, List, [], ◌∷◌, ◌++◌, eq_iff,
  Bool-cases, All, arith, filter,
}

module _ (p : EvidenceItem → Bool) where
  filter-place_out :
      (item : EvidenceItem) (xs : List EvidenceItem)
      → p item ≡ false
      → filter p (place item xs) ≡ filter p xs
  unfolding place
  filter-place_out item [] out = ground arith
  filter-place_out item (x ∷ xs) out = ground (arith, filter-place_out item xs out)

  filter-place_in :
      (item : EvidenceItem) (xs : List EvidenceItem)
      → p item ≡ true
      → filter p xs ≡ []
      → filter p (place item xs) ≡ item ∷ []
  unfolding place
  filter-place_in item [] inside h = ground arith
  filter-place_in item (x ∷ xs) inside h = elim (Bool-cases (p x)) [
    | inl e ↦ ground (arith, e, h)
    | inr e ↦ ground (arith, e, h, filter-place_in item xs inside (rw e at h))
  ]

  filter-sort_empty : (xs : List EvidenceItem) → filter p xs ≡ [] → filter p (sort_items xs) ≡ []
  unfolding sort_items
  filter-sort_empty [] h = refl
  filter-sort_empty (x ∷ xs) h = elim (Bool-cases (p x)) [
    | inl e ↦ ground (arith, e, h)
    | inr e ↦ ground (arith, filter-place_out x (sort_items xs) e, filter-sort_empty xs (rw e at h))
  ]

  -- Sorting leaves a single item single.
  pub filter-sort_single :
      (winner : EvidenceItem) (xs : List EvidenceItem)
      → filter p xs ≡ winner ∷ []
      → filter p (sort_items xs) ≡ winner ∷ []
  unfolding sort_items
  filter-sort_single winner [] h = h
  filter-sort_single winner (x ∷ xs) h = elim (Bool-cases (p x)) [
    | inl e ↦
        let only : x ∷ filter p xs ≡ winner ∷ [] = rw e at h in
        let nothing : filter p xs ≡ [] = ground (arith, only) in
        let same : x ≡ winner = ground (arith, only) in
        rw (filter-place_in x (sort_items xs) e (filter-sort_empty xs nothing), same) refl
    | inr e ↦
        ground
          (arith, filter-place_out x (sort_items xs) e, filter-sort_single winner xs (rw e at h))
  ]

module _ (group : String) where
  filter-ungrouped :
      (xs ys : List EvidenceItem)
      → All (λ x. group_of x ≡ none) xs
      → filter (in_group group) (xs ++ ys) ≡ filter (in_group group) ys
  unfolding in_group
  filter-ungrouped [] ys a = refl
  filter-ungrouped (x ∷ xs) ys (n, a) =
      let out : in_group group x ≡ false = rw (in_group, n) refl in
      rw out (filter-ungrouped xs ys a)

  filter-values_empty :
      (d : OrderedDict EvidenceItem)
      → Keyed d
      → lookup group d ≡ none
      → filter (in_group group) (values d) ≡ []
  unfolding lookup in_group
  filter-values_empty [] k h = refl
  filter-values_empty ((g, x) ∷ d) (e, new, k) h = ground (arith, e, h, filter-values_empty d k)

  filter-values :
      (winner : EvidenceItem) (d : OrderedDict EvidenceItem)
      → Keyed d
      → lookup group d ≡ some winner
      → filter (in_group group) (values d) ≡ winner ∷ []
  unfolding lookup in_group
  filter-values winner [] k h = ground (arith, h)
  filter-values winner ((g, x) ∷ d) (e, new, k) h =
      ground (arith, e, h, new, eq_iff g group, filter-values winner d k, filter-values_empty d k)

  -- A sorted list of items without a group and of winners has one item of the group.
  pub filter-sorted :
      (winner : EvidenceItem) (without_group : List EvidenceItem) (d : OrderedDict EvidenceItem)
      → All (λ x. group_of x ≡ none) without_group
      → Keyed d
      → lookup group d ≡ some winner
      → filter (in_group group) (sort_items (without_group ++ values d)) ≡ winner ∷ []
  filter-sorted winner without_group d a k h =
      filter-sort_single (in_group group) winner (without_group ++ values d)
        (rw (filter-ungrouped without_group (values d) a) (filter-values winner d k h))
