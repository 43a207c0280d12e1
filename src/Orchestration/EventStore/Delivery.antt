-- ===== src/Orchestration/EventStore/Delivery.antt =====
-- execution_events.py: the store against an append-only log of what was published.
use mathlib.Core.List.{append-nil, append_assoc}
use multi_agent_rag_local.OrderedDict.{
  behind-erase, lookup-move_to_end, behind-append, lookup-erase, erase, insert, OrderedDict, lookup,
  move_to_end, lookup-pop_oldest, behind-append_new, insert-new, behind-insert, lookup-insert,
  behind,
}
use multi_agent_rag_local.Orchestration.EventStore.{
  events_since, touch, publish, ExecutionEventStore, append_to,
}
use multi_agent_rag_local.Common.{
  zero, take-append_full, take-append_room, take-drop_append, length-take, sym, true, eq_iff, take,
  suc, ◌≤◌, refl, ap, ◌∙◌, inl, inr, none, arith, eq_refl, Bool-cases, Option-cases, ℕ, ◌+◌, ◌-◌,
  ◌<◌, String, ◌≡◌, false, some, List, [], ◌∷◌, ◌++◌, ◌==◌, ltb, if◌then◌else◌, length,
}

module _ {ℓ} {E : Type ℓ} where
  unfoldable pub publish_all : List (String × E) → ExecutionEventStore E → ExecutionEventStore E
  publish_all [] s = s
  publish_all ((k, e) ∷ rest) s = publish_all rest (publish k e s)

  -- The abstract log of one execution: its own events, in order.
  unfoldable pub log : String → List (String × E) → List E
  log id [] = []
  log id ((k, e) ∷ rest) = let later = log id rest in if k == id then e ∷ later else later

  -- At most `room` publishes of other executions lie between two of its own, and after the last;
  -- `left` of them are left.
  abbrev pub Active : String → (room left : ℕ) → List (String × E) → Type 0
  Active id room left [] = Unit
  Active id room left ((k, e) ∷ rest) =
      if k == id then Active id room room rest else (0 < left) × Active id room (left - 1) rest

  -- The entry holds these events, with room for `left` newer entries.
  record Holds (id : String) (left : ℕ) (xs : List E) (s : ExecutionEventStore E) : Type ℓ where
    found : lookup id s.events ≡ some xs
    room : behind id s.events + left < s.max_executions

  append_to-found :
      (limit : ℕ) (id : String) (e : E) (d : OrderedDict (List E)) {xs : List E}
      → lookup id d ≡ some xs
      → (lookup id (append_to limit id e d)
          ≡ some (if ltb (length xs) limit then xs ++ e ∷ [] else xs))
        × (behind id (append_to limit id e d) ≡ behind id d)
  unfolding append_to
  append_to-found limit id e d {xs} h =
      rw (h, append_to)
        (ground (
          arith,
          lookup-insert id id (xs ++ e ∷ []) d,
          eq_refl id,
          behind-insert id id (xs ++ e ∷ []) d,
        ))

  append_to-other :
      (limit : ℕ) (k id : String) (e : E) (d : OrderedDict (List E))
      → (k == id) ≡ false
      → (lookup id (append_to limit k e d) ≡ lookup id d)
        × (behind id (append_to limit k e d) ≡ behind id d)
  unfolding append_to
  append_to-other limit k id e d other = elim (Option-cases (lookup k d)) [
    | inl a ↦ rw (a, append_to) (refl, refl)
    | inr (ws, a) ↦
        rw (a, append_to)
          (ground (arith, lookup-insert k id (ws ++ e ∷ []) d, behind-insert id k (ws ++ e ∷ []) d))
  ]

  touch-own :
      (m : ℕ) (id : String) (d : OrderedDict (List E)) {xs : List E}
      → lookup id d ≡ some xs
      → (lookup id (touch m id d) ≡ some xs) × (behind id (touch m id d) ≡ 0)
  unfolding touch move_to_end
  touch-own m id d {xs} h =
      let gone : lookup id (erase id d) ≡ none = rw (lookup-erase, eq_refl id) refl in
      rw (h, touch)
        (
          lookup-move_to_end id id d ∙ h,
          rw (h, move_to_end) (behind-append_new id (erase id d) xs (rw gone refl)),
        )

  touch-first :
      (m : ℕ) (id : String) (d : OrderedDict (List E))
      → lookup id d ≡ none
      → 0 < m
      → (lookup id (touch m id d) ≡ some []) × (behind id (touch m id d) ≡ 0)
  unfolding touch
  touch-first m id d h positive =
      let d' = insert id [] d in
      let found : lookup id d' ≡ some [] = rw (lookup-insert, eq_refl id) refl in
      let last : behind id d' ≡ 0 =
        rw (insert-new id [] d h) (behind-append_new id d [] (rw h refl)) in
      let (a, b) = lookup-pop_oldest m id d' (rw found refl) (omega (arith, last)) in
      rw (h, touch) (a ∙ found, b ∙ last)

  touch-other :
      (m : ℕ) (k id : String) (d : OrderedDict (List E)) {xs : List E}
      → (k == id) ≡ false
      → lookup id d ≡ some xs
      → suc (behind id d) < m
      → (lookup id (touch m k d) ≡ some xs) × (behind id (touch m k d) ≤ suc (behind id d))
  unfolding touch move_to_end
  touch-other m k id d {xs} other h room = elim (Option-cases (lookup k d)) [
    | inl a ↦
        let d' = insert k [] d in
        let found : lookup id d' ≡ some xs = rw (lookup-insert, other) h in
        let moved : behind id d' ≡ suc (behind id d) =
          rw (insert-new k [] d a) (behind-append id d k [] (rw h refl)) in
        let (b, c) = lookup-pop_oldest m id d' (rw found refl) (omega (arith, moved)) in
        rw (a, touch) (b ∙ found, omega (arith, c, moved))
    | inr (ws, a) ↦
        let found : lookup id (erase k d) ≡ some xs = rw (lookup-erase, other) h in
        rw (a, touch)
          (
            lookup-move_to_end k id d ∙ h,
            rw (a, move_to_end)
                (omega
                  (arith, behind-append id (erase k d) k ws (rw found refl), behind-erase id k d)),
          )
  ]

  grow :
      (limit : ℕ) (ys : List E) (e : E)
      → (if ltb (length (take limit ys)) limit then take limit ys ++ e ∷ [] else take limit ys)
        ≡ take limit (ys ++ e ∷ [])
  grow limit ys e = elim (Bool-cases (ltb (length ys) limit)) [
    | inl room ↦
        let short : ltb (length (take limit ys)) limit ≡ true =
          ground (arith, length-take limit ys) in
        rw short (sym (take-append_room limit ys e (ground arith)))
    | inr full ↦
        let long : ltb (length (take limit ys)) limit ≡ false =
          ground (arith, length-take limit ys) in
        rw long (sym (take-append_full limit ys (e ∷ []) (ground arith)))
  ]

  take-nil : (n : ℕ) → take {A = E} n [] ≡ []
  take-nil zero = refl
  take-nil (suc n) = refl

  one : (limit : ℕ) (e : E) → (if ltb 0 limit then e ∷ [] else []) ≡ take limit (e ∷ [])
  one zero e = refl
  one (suc n) e = ground (arith, take-nil n)

  publish-own :
      (id : String) (e : E) (left room : ℕ) (ys : List E) (s : ExecutionEventStore E)
      → room < s.max_executions
      → Holds id left (take s.max_events_per_execution ys) s
      → Holds id room (take s.max_events_per_execution (ys ++ e ∷ [])) (publish id e s)
  unfolding publish
  publish-own id e left room ys s small h =
      let (a, b) = touch-own s.max_executions id s.events h.found in
      let (c, d) =
        append_to-found s.max_events_per_execution id e (touch s.max_executions id s.events) a in
      record {
        found = c ∙ ap some (grow s.max_events_per_execution ys e);
        room = omega (arith, b, d);
      }

  publish-other :
      (k id : String) (e : E) (left : ℕ) (xs : List E) (s : ExecutionEventStore E)
      → (k == id) ≡ false
      → 0 < left
      → Holds id left xs s
      → Holds id (left - 1) xs (publish k e s)
  unfolding publish
  publish-other k id e left xs s other positive h =
      let (a, b) =
        touch-other s.max_executions k id s.events other h.found (omega (arith, h.room)) in
      let (c, d) =
        append_to-other s.max_events_per_execution k id e (touch s.max_executions k s.events)
          other in
      record { found = c ∙ a; room = omega (arith, b, d, h.room) }

  publish_all-Holds :
      (id : String) (room left : ℕ) (ys : List E) (ops : List (String × E))
      (s : ExecutionEventStore E)
      → room < s.max_executions
      → Active id room left ops
      → Holds id left (take s.max_events_per_execution ys) s
      → lookup id (publish_all ops s).events
        ≡ some (take s.max_events_per_execution (ys ++ log id ops))
  unfolding publish_all log publish
  publish_all-Holds id room left ys [] s small active h = rw (append-nil ys) h.found
  publish_all-Holds id room left ys ((k, e) ∷ rest) s small active h = elim (Bool-cases (k == id)) [
    | inl same ↦ rw same (
        publish_all-Holds id room room (ys ++ e ∷ []) rest (publish k e s) small (rw same at active)
          (rw ((eq_iff k id).0 same) (publish-own id e left room ys s small h))
        ∙ ap (λ l. some (take s.max_events_per_execution l))
            (append_assoc ys (e ∷ []) (log id rest)))
    | inr other ↦
        let active' = rw other at active in
        rw other (
          publish_all-Holds id room (left - 1) ys rest (publish k e s) small active'.1
            (publish-other k id e left _ s other active'.0 h))
  ]

  -- An execution that is new to the store, and between whose publishes, and after the last, fewer than
  -- `max_executions` publishes of others lie, reads as its abstract log: its own events in the order in
  -- which they were published, up to the cap of events for one execution, whatever is evicted meanwhile.
  pub publish_all-log :
      (id : String) (e : E) (ops : List (String × E)) (s : ExecutionEventStore E)
      → 0 < s.max_executions
      → lookup id s.events ≡ none
      → Active id (s.max_executions - 1) (s.max_executions - 1) ops
      → events_since id 0 (publish_all ((id, e) ∷ ops) s)
        ≡ take s.max_events_per_execution (log id ((id, e) ∷ ops))
  unfolding publish_all log events_since publish
  publish_all-log id e ops s positive fresh active =
      let limit = s.max_events_per_execution in
      let (a, b) = touch-first s.max_executions id s.events fresh positive in
      let (c, d) = append_to-found limit id e (touch s.max_executions id s.events) a in
      let h : Holds id (s.max_executions - 1) (take limit (e ∷ [])) (publish id e s) = record {
        found = c ∙ ap some (one limit e);
        room = omega (arith, b, d);
      } in
      rw
        (
          publish_all-Holds id (s.max_executions - 1) (s.max_executions - 1) (e ∷ []) ops
              (publish id e s) (omega arith) active h,
          eq_refl id,
        )
        refl

  -- What a reader at an offset is given continues what it has: with the part that it has already read,
  -- it is the whole of what the store holds for the execution.
  pub events_since-resumes :
      (id : String) (offset : ℕ) (s : ExecutionEventStore E)
      → take offset (events_since id 0 s) ++ events_since id offset s ≡ events_since id 0 s
  unfolding events_since
  events_since-resumes id offset s = take-drop_append offset _
