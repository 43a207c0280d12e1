-- ===== src/Knowledge/Context/Winners.antt =====
-- context.py: who wins in a group of conflicting evidence.
use multi_agent_rag_local.Common.{here, there}
use multi_agent_rag_local.OrderedDict.{lookup-insert, lookup}
use multi_agent_rag_local.Knowledge.Context.{consider_all, Conflicts, group_of, overrides, consider}
use multi_agent_rag_local.Domain.{EvidenceItem}
use multi_agent_rag_local.Common.{
  there, In, ap, ◌∙◌, true, List, [], ◌∷◌, String, ◌≡◌, refl, inl, inr, Bool, false, Option, none,
  some, arith, ◌==◌, eq_iff, if◌then◌else◌, Bool-cases, Option-cases,
}

-- Whether an item belongs to a group.
unfoldable pub in_group : String → EvidenceItem → Bool
in_group group item = elim (group_of item) [ none ↦ false | some g ↦ g == group ]

abbrev pub stronger : Option EvidenceItem → EvidenceItem → EvidenceItem
stronger none item = item
stronger (some current) item = if overrides item current then item else current

consider-lookup :
    (group : String) (item : EvidenceItem) (c : Conflicts)
    → lookup group (consider item c).winners ≡ (
        if in_group group item
        then some (stronger (lookup group c.winners) item)
        else lookup group c.winners)
unfolding consider in_group
consider-lookup group item c = elim (Option-cases (group_of item)) [
  | inl e ↦ rw (consider, in_group, e) refl
  | inr (g, e) ↦ elim (Option-cases (lookup g c.winners)) [
    | inl f ↦
        rw (consider, in_group, e, f)
          (ground (arith, lookup-insert g group item c.winners, eq_iff g group))
    | inr (current, f) ↦ elim (Bool-cases (overrides item current)) [
      | inl o ↦
          rw (consider, in_group, e, f, o)
            (ground (arith, lookup-insert g group item c.winners, eq_iff g group, f, o))
      | inr o ↦ rw (consider, in_group, e, f, o) (ground (arith, eq_iff g group, f, o))
    ]
  ]
]

-- The strongest item of a group, from a present one on: an earlier item stays among equals.
unfoldable pub strongest : String → List EvidenceItem → Option EvidenceItem → Option EvidenceItem
strongest group [] winner = winner
strongest group (item ∷ items) winner =
    strongest group items (if in_group group item then some (stronger winner item) else winner)

pub consider_all-lookup :
    (group : String) (items : List EvidenceItem) (c : Conflicts)
    → lookup group (consider_all items c).winners ≡ strongest group items (lookup group c.winners)
unfolding consider_all strongest
consider_all-lookup group [] c = refl
consider_all-lookup group (item ∷ items) c =
    consider_all-lookup group items (consider item c)
    ∙ ap (λ (w : Option EvidenceItem). strongest group items w) (consider-lookup group item c)

overrides_trans :
    (item current other : EvidenceItem)
    → overrides item current ≡ true
    → overrides other current ≡ false
    → overrides other item ≡ false
unfolding overrides
overrides_trans item current other h k = ground arith

stronger-beats :
    (other item current : EvidenceItem)
    → overrides other current ≡ false
    → overrides other (stronger (some current) item) ≡ false
stronger-beats other item current h = elim (Bool-cases (overrides item current)) [
  | inl e ↦ rw e (overrides_trans item current other e h)
  | inr e ↦ rw e h
]

-- A winner is followed by winners only that the same items do not override.
strongest-beats :
    (group : String) (items : List EvidenceItem) (other current : EvidenceItem)
    → overrides other current ≡ false
    → (winner : EvidenceItem) × (strongest group items (some current) ≡ some winner)
      × (overrides other winner ≡ false)
unfolding strongest
strongest-beats group [] other current h = (current, refl, h)
strongest-beats group (item ∷ items) other current h = elim (Bool-cases (in_group group item)) [
  | inl e ↦ rw e (
      strongest-beats group items other (stronger (some current) item)
        (stronger-beats other item current h))
  | inr e ↦ rw e (strongest-beats group items other current h)
]

enters : (item : EvidenceItem) (w : Option EvidenceItem) → overrides item (stronger w item) ≡ false
unfolding overrides
enters item none = ground arith
enters item (some current) = ground arith

pub strongest-In :
    (group : String) (items : List EvidenceItem) (w : Option EvidenceItem) (item : EvidenceItem)
    → In item items
    → in_group group item ≡ true
    → (winner : EvidenceItem) × (strongest group items w ≡ some winner)
      × (overrides item winner ≡ false)
unfolding strongest
strongest-In group [] w item i e = elim i [ ]
strongest-In group (item ∷ items) w _ here e =
    rw e (strongest-beats group items item (stronger w item) (enters item w))
strongest-In group (other ∷ items) w item (there i) e =
    strongest-In group items (if in_group group other then some (stronger w other) else w) item i e
