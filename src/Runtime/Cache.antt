-- ===== src/Runtime/Cache.antt =====
-- app/services/runtime/resilience.py, `TTLCache`. An instant is a number of microseconds. An operation
-- reads the clock up to three times: for itself, to ask whether to evict, and in the eviction.
use multi_agent_rag_local.OrderedDict.{insert, OrderedDict, erase, lookup, move_to_end}
use multi_agent_rag_local.Common.{
  ℕ, ◌+◌, ◌-◌, ◌*◌, max, String, Bool, ◌||◌, Option, none, some, [], ◌∷◌, ltb, leb, if◌then◌else◌,
  length, filter, ℤ, max_zero,
}
pub mod Served

abbrev pub Store {ℓ} : Type ℓ → Type ℓ
Store V = OrderedDict (ℕ × V)

pub record TtlCache {ℓ} (V : Type ℓ) : Type ℓ where
  pub ttl : ℕ
  pub max_items : ℕ
  pub store : Store V
  pub last_eviction : ℕ
  pub eviction_interval : ℕ

pub record Readings : Type 0 where
  pub now : ℕ
  pub asked : ℕ
  pub evicting : ℕ

module _ {ℓ} {V : Type ℓ} where
  -- `__init__`; a tenth of a second of the time to live is 100,000 microseconds.
  unfoldable pub new_cache : (ttl_seconds max_items : ℤ) → (now : ℕ) → TtlCache V
  new_cache ttl_seconds max_items now = record {
    ttl = max 1 (max_zero ttl_seconds) * 1_000_000;
    max_items = max 1 (max_zero max_items);
    store = [];
    last_eviction = now;
    eviction_interval = max 1_000_000 (max_zero ttl_seconds * 100_000);
  }

  unfoldable pub should_evict : ℕ → TtlCache V → Bool
  should_evict now c = leb c.eviction_interval (now - c.last_eviction)

  -- The loop that pops the oldest entry while there are too many.
  unfoldable pub shrink : ℕ → Store V → Store V
  shrink max_items [] = []
  shrink max_items (entry ∷ store) =
      let rest = shrink max_items store in
      if ltb max_items (length (entry ∷ store)) then rest else entry ∷ store

  abbrev pub is_live : ℕ → String × (ℕ × V) → Bool
  is_live now (key, (exp, value)) = ltb now exp

  unfoldable pub evict : ℕ → TtlCache V → TtlCache V
  unfolding shrink
  evict now c = record c {
    store = shrink c.max_items (filter (is_live now) c.store);
    last_eviction = now;
  }

  unfoldable pub evict_if_due : Readings → TtlCache V → TtlCache V
  unfolding should_evict evict
  evict_if_due r c = if should_evict r.asked c then evict r.evicting c else c

  unfoldable pub get : String → Readings → TtlCache V → Option V × TtlCache V
  unfolding evict_if_due
  get key r c = elim (lookup key c.store) [
    | none ↦ (none, evict_if_due r c)
    | some (exp, value) ↦
        if leb exp r.now
        then (none, evict_if_due r (record c { store = erase key c.store }))
        else (some value, evict_if_due r (record c { store = move_to_end key c.store }))
  ]

  unfoldable pub set : String → V → Readings → TtlCache V → TtlCache V
  unfolding should_evict evict
  set key value r c =
      let c' = record c { store = move_to_end key (insert key (r.now + c.ttl, value) c.store) } in
      if ltb c'.max_items (length c'.store) || should_evict r.asked c'
      then evict r.evicting c'
      else c'

  unfoldable pub delete : String → TtlCache V → TtlCache V
  delete key c = record c { store = erase key c.store }
