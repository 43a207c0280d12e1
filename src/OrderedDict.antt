-- ===== src/OrderedDict.antt =====
-- Python's `dict` and `OrderedDict` with text keys, in insertion order.
use multi_agent_rag_local.Common.{
  suc, ◌≡◌, refl, Bool, true, false, Option, none, some, List, [], ◌∷◌, ◌++◌, arith, String, ◌==◌,
  eq_iff, if◌then◌else◌, is_some, length, ltb, Bool-cases, eq_refl, ◌<◌, ℕ, ◌≤◌, length-append,
  Option-cases, inl, inr,
}

abbrev pub OrderedDict {ℓ} : Type ℓ → Type ℓ
OrderedDict V = List (String × V)

module _ {ℓ} {V : Type ℓ} where
  -- `d.get(k)`
  unfoldable pub lookup : String → OrderedDict V → Option V
  lookup k [] = none
  lookup k ((j, v) ∷ d) = if j == k then some v else lookup k d

  -- `k in d`
  abbrev pub has_key : String → OrderedDict V → Bool
  has_key k d = is_some (lookup k d)

  -- `d[k] = v`: a key that is there keeps its place, a new one goes to the end.
  unfoldable pub insert : String → V → OrderedDict V → OrderedDict V
  insert k v [] = (k, v) ∷ []
  insert k v ((j, w) ∷ d) = if j == k then (k, v) ∷ d else (j, w) ∷ insert k v d

  -- `d.pop(k, None)`
  unfoldable pub erase : String → OrderedDict V → OrderedDict V
  erase k [] = []
  erase k ((j, v) ∷ d) = let rest = erase k d in if j == k then rest else (j, v) ∷ rest

  -- `d.move_to_end(k)`, for a key that is there.
  unfoldable pub move_to_end : String → OrderedDict V → OrderedDict V
  unfolding erase lookup
  move_to_end k d = elim (lookup k d) [ none ↦ d | some v ↦ erase k d ++ (k, v) ∷ [] ]

  -- `d.popitem(last=False)`
  unfoldable pub pop_first : OrderedDict V → OrderedDict V
  pop_first [] = []
  pop_first (_ ∷ d) = d

  pub lookup-empty : (k : String) → lookup k [] ≡ none
  unfolding lookup
  lookup-empty k = refl

  pub lookup-insert :
      (k j : String) (v : V) (d : OrderedDict V)
      → lookup j (insert k v d) ≡ (if k == j then some v else lookup j d)
  unfolding lookup insert
  lookup-insert k j v [] = refl
  lookup-insert k j v ((i, w) ∷ d) =
      ground (arith, eq_iff k j, eq_iff i k, eq_iff i j, lookup-insert k j v d)

  pub lookup-erase :
      (k j : String) (d : OrderedDict V)
      → lookup j (erase k d) ≡ (if k == j then none else lookup j d)
  unfolding lookup erase
  lookup-erase k j [] = ground arith
  lookup-erase k j ((i, w) ∷ d) =
      ground (arith, eq_iff k j, eq_iff i k, eq_iff i j, lookup-erase k j d)

  pub lookup-append :
      (j : String) (d e : OrderedDict V)
      → lookup j (d ++ e) ≡ (if has_key j d then lookup j d else lookup j e)
  unfolding lookup
  lookup-append j [] e = refl
  lookup-append j ((i, w) ∷ d) e = ground (arith, lookup-append j d e)

  pub lookup-move_to_end :
      (k j : String) (d : OrderedDict V) → lookup j (move_to_end k d) ≡ lookup j d
  unfolding move_to_end
  lookup-move_to_end k j d = elim (Option-cases (lookup k d)) [
    | inl absent ↦ rw (absent, move_to_end)
    | inr (v, found) ↦
        ground (arith, eq_iff k j, lookup-append j (erase k d) ((k, v) ∷ []), lookup-erase k j d)
  ]

  pub length-insert :
      (k : String) (v : V) (d : OrderedDict V)
      → length (insert k v d) ≡ (if has_key k d then length d else suc (length d))
  unfolding lookup insert
  length-insert k v [] = refl
  length-insert k v ((i, w) ∷ d) = ground (arith, length-insert k v d)

  pub length-erase : (k : String) (d : OrderedDict V) → length (erase k d) ≤ length d
  unfolding erase
  length-erase k [] = omega arith
  length-erase k ((i, w) ∷ d) = ground (arith, length-erase k d)

  pub length-erase_found :
      (k : String) (d : OrderedDict V) → has_key k d ≡ true → suc (length (erase k d)) ≤ length d
  unfolding lookup erase
  length-erase_found k [] h = cc
  length-erase_found k ((i, w) ∷ d) h = ground (arith, length-erase k d, length-erase_found k d)

  -- Moving a key to the end keeps the number of entries within what it was.
  pub length-move_to_end_le : (k : String) (d : OrderedDict V) → length (move_to_end k d) ≤ length d
  unfolding move_to_end
  length-move_to_end_le k d = elim (Option-cases (lookup k d)) [
    | inl absent ↦ rw (absent, move_to_end) (omega arith)
    | inr (v, found) ↦
        rw (found, move_to_end)
          (omega (
            arith,
            length-append (erase k d) ((k, v) ∷ []),
            length-erase_found k d (rw found refl),
          ))
  ]

  -- `while len(d) > m: d.popitem(last=False)`
  unfoldable pub pop_oldest : ℕ → OrderedDict V → OrderedDict V
  pop_oldest m [] = []
  pop_oldest m (entry ∷ d) =
      let rest = pop_oldest m d in if ltb m (length (entry ∷ d)) then rest else entry ∷ d

  pub length-pop_oldest :
      (m : ℕ) (d : OrderedDict V)
      → (length (pop_oldest m d) ≤ m) × (length (pop_oldest m d) ≤ length d)
  unfolding pop_oldest
  length-pop_oldest m [] = (omega arith, omega arith)
  length-pop_oldest m (entry ∷ d) = ground (arith, length-pop_oldest m d)

  -- The number of entries that stand behind the first one of a key.
  unfoldable pub behind : String → OrderedDict V → ℕ
  behind k [] = 0
  behind k ((j, v) ∷ d) = let rest = behind k d in if j == k then length d else rest

  -- A key with few enough entries behind it is not popped.
  pub lookup-pop_oldest :
      (m : ℕ) (k : String) (d : OrderedDict V)
      → has_key k d ≡ true
      → behind k d < m
      → (lookup k (pop_oldest m d) ≡ lookup k d) × (behind k (pop_oldest m d) ≡ behind k d)
  unfolding pop_oldest lookup behind
  lookup-pop_oldest m k [] h b = cc
  lookup-pop_oldest m k ((j, v) ∷ d) h b = elim (Bool-cases (j == k)) [
    | inl same ↦ ground arith
    | inr other ↦ ground (arith, lookup-pop_oldest m k d)
  ]

  pub behind-append :
      (k : String) (d : OrderedDict V) (j : String) (v : V)
      → has_key k d ≡ true
      → behind k (d ++ (j, v) ∷ []) ≡ suc (behind k d)
  unfolding lookup behind
  behind-append k [] j v h = cc
  behind-append k ((i, w) ∷ d) j v h =
      ground (arith, behind-append k d j v, length-append d ((j, v) ∷ []))

  pub behind-append_new :
      (k : String) (d : OrderedDict V) (v : V)
      → has_key k d ≡ false
      → behind k (d ++ (k, v) ∷ []) ≡ 0
  unfolding lookup behind
  behind-append_new k [] v h = ground (arith, eq_refl k)
  behind-append_new k ((i, w) ∷ d) v h = ground (arith, behind-append_new k d v)

  behind-le : (k : String) (d : OrderedDict V) → behind k d ≤ length d
  unfolding behind
  behind-le k [] = omega arith
  behind-le k ((i, w) ∷ d) = ground (arith, behind-le k d)

  pub behind-erase : (k j : String) (d : OrderedDict V) → behind k (erase j d) ≤ behind k d
  unfolding erase behind
  behind-erase k j [] = omega arith
  behind-erase k j ((i, w) ∷ d) =
      ground (arith, behind-erase k j d, behind-le k (erase j d), length-erase j d)

  pub insert-new :
      (k : String) (v : V) (d : OrderedDict V) → lookup k d ≡ none → insert k v d ≡ d ++ (k, v) ∷ []
  unfolding lookup insert
  insert-new k v [] h = refl
  insert-new k v ((j, w) ∷ d) h = ground (arith, insert-new k v d)

  -- Writing under a key that is there moves nothing.
  pub behind-insert :
      (k j : String) (v : V) (d : OrderedDict V)
      → has_key j d ≡ true
      → behind k (insert j v d) ≡ behind k d
  unfolding lookup insert behind
  behind-insert k j v [] h = cc
  behind-insert k j v ((i, w) ∷ d) h =
      ground (arith, behind-insert k j v d, length-insert j v d, eq_iff i j)
