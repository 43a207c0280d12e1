-- ===== src/Runtime/Cache/Served.antt =====
-- resilience.py, `TTLCache`: what it serves and how much it holds.
use multi_agent_rag_local.OrderedDict.{
  erase, lookup-move_to_end, lookup-append, lookup-erase, lookup-insert, insert, lookup,
  move_to_end,
}
use mathlib.Core.Option.{some-injective, none-ne-some}
use multi_agent_rag_local.Runtime.Cache.{
  should_evict, is_live, TtlCache, Readings, Store, evict, get, set, shrink,
}
use multi_agent_rag_local.Common.{
  sym, false, ◌||◌, ◌==◌, ltb, ℕ, ◌+◌, ◌≤◌, ◌<◌, String, ◌≡◌, refl, ap, ◌∙◌, inl, inr, Bool, true,
  none, some, [], ◌∷◌, ◌++◌, arith, eq_refl, leb, Bool-cases, Option-cases, length, filter,
}

module _ {ℓ} {V : Type ℓ} where
  -- A value that is served is the stored one, and its time has not run out.
  pub get-live :
      (key : String) (r : Readings) (c : TtlCache V) {value : V}
      → (get key r c).0 ≡ some value
      → (exp : ℕ) × (lookup key c.store ≡ some (exp, value)) × (r.now < exp)
  unfolding get
  get-live key r c {value} e = elim (Option-cases (lookup key c.store)) [
    | inl a ↦ absurd (none-ne-some _ (rw (a, get) at e))
    | inr ((exp, v), a) ↦ elim (Bool-cases (leb exp r.now)) [
      | inl b ↦ absurd (none-ne-some _ (rw (a, b, get) at e))
      | inr b ↦ (
        exp,
        a ∙ ap (λ x. some (exp, x)) (some-injective v value (rw (a, b, get) at e)),
        ground arith,
      )
    ]
  ]

  some-none : {x : ℕ × V} → some x ≡ none → ⊥
  some-none e = none-ne-some _ (sym e)

  length-shrink :
      (m : ℕ) (store : Store V)
      → (length (shrink m store) ≤ m) × (length (shrink m store) ≤ length store)
  unfolding shrink
  length-shrink m [] = (omega arith, omega arith)
  length-shrink m (entry ∷ store) = ground (arith, length-shrink m store)

  length-evict : (now : ℕ) (c : TtlCache V) → length (evict now c).store ≤ c.max_items
  unfolding evict
  length-evict now c = (length-shrink c.max_items (filter (is_live now) c.store)).0

  -- After an entry is written there are at most `max_items`, whatever the cache held before.
  pub set-bounded :
      (key : String) (value : V) (r : Readings) (c : TtlCache V)
      → length (set key value r c).store ≤ c.max_items
  unfolding set
  set-bounded key value r c = ground (
    arith,
    length-evict r.evicting
        (record c { store = move_to_end key (insert key (r.now + c.ttl, value) c.store) }),
  )

  move_to_end-form :
      (key : String) (store : Store V) {x : ℕ × V}
      → lookup key store ≡ some x
      → move_to_end key store ≡ erase key store ++ (key, x) ∷ []
  unfolding move_to_end
  move_to_end-form key store e = rw (e, move_to_end) refl

  filter-append_one :
      (p : String × (ℕ × V) → Bool) (store : Store V) (entry : String × (ℕ × V))
      → p entry ≡ true
      → filter p (store ++ entry ∷ []) ≡ filter p store ++ entry ∷ []
  filter-append_one p [] entry e = rw e refl
  filter-append_one p (x ∷ store) entry e = ground (arith, filter-append_one p store entry e)

  lookup-filter-none :
      (p : String × (ℕ × V) → Bool) (key : String) (store : Store V)
      → lookup key store ≡ none
      → lookup key (filter p store) ≡ none
  unfolding lookup
  lookup-filter-none p key [] e = refl
  lookup-filter-none p key ((j, w) ∷ store) e = ground (arith, lookup-filter-none p key store)

  -- Popping the oldest never reaches the newest.
  lookup-shrink_end :
      (m : ℕ) (key : String) (x : ℕ × V) (store : Store V)
      → 0 < m
      → lookup key store ≡ none
      → lookup key (shrink m (store ++ (key, x) ∷ [])) ≡ some x
  unfolding shrink lookup
  lookup-shrink_end m key x [] h e = ground (arith, eq_refl key)
  lookup-shrink_end m key x ((j, w) ∷ store) h e = elim (Bool-cases (j == key)) [
    | inl same ↦ absurd (some-none (rw same at e))
    | inr other ↦
        let rest = lookup-shrink_end m key x store h (rw other at e) in
        ground (arith, lookup-append key store ((key, x) ∷ []), eq_refl key)
  ]

  live_found :
      (key : String) (s : Readings) (c : TtlCache V) (exp : ℕ) (value : V)
      → lookup key c.store ≡ some (exp, value)
      → s.now < exp
      → (get key s c).0 ≡ some value
  unfolding get
  live_found key s c exp value e soon =
      let b : leb exp s.now ≡ false = ground arith in rw (e, b, get) refl

  module _ (key : String) (value : V) (r : Readings) (c : TtlCache V) where
    entry : ℕ × V
    entry = (r.now + c.ttl, value)

    inserted : Store V
    unfolding entry
    inserted = insert key entry c.store

    inserted-lookup : lookup key inserted ≡ some entry
    unfolding inserted
    inserted-lookup = rw (lookup-insert, eq_refl key) refl

    earlier : lookup key (erase key inserted) ≡ none
    earlier = rw (lookup-erase, eq_refl key) refl

    evicted-lookup :
        0 < c.max_items
        → r.evicting < r.now + c.ttl
        → lookup key (shrink c.max_items (filter (is_live r.evicting) (move_to_end key inserted)))
          ≡ some entry
    unfolding entry
    evicted-lookup h in_time =
        rw
          (
            move_to_end-form key inserted inserted-lookup,
            filter-append_one (is_live r.evicting) (erase key inserted) (key, entry) (ground arith),
          )
          (lookup-shrink_end c.max_items key entry _ h (lookup-filter-none _ key _ earlier))

    set-lookup :
        0 < c.max_items
        → r.evicting < r.now + c.ttl
        → lookup key (set key value r c).store ≡ some entry
    unfolding set evict inserted
    set-lookup h in_time =
        let c' : TtlCache V = record c { store = move_to_end key inserted } in
        elim (Bool-cases (ltb c'.max_items (length c'.store) || should_evict r.asked c')) [
          | inl b ↦ rw (b, set) (evicted-lookup h in_time)
          | inr b ↦ rw (b, set) (lookup-move_to_end key key inserted ∙ inserted-lookup)
        ]

  -- What was just written is served to a reader that comes before its time is out, even if the
  -- write evicted, as long as the eviction too read the clock before that time.
  pub get-set :
      (key : String) (value : V) (r s : Readings) (c : TtlCache V)
      → 0 < c.max_items
      → r.evicting < r.now + c.ttl
      → s.now < r.now + c.ttl
      → (get key s (set key value r c)).0 ≡ some value
  unfolding entry
  get-set key value r s c h in_time soon =
      live_found key s _ (r.now + c.ttl) value (set-lookup key value r c h in_time) soon
