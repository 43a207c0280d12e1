-- ===== src/Auth/OauthState/Bounded.antt =====
-- oauth_state.py: the size of the memory.
use multi_agent_rag_local.OrderedDict.{OrderedDict, lookup, erase, insert}
use multi_agent_rag_local.Auth.OauthState.{
  max_memory_entries, StateData, make_room, oldest, pop_oldest_state, prune, store_memory,
}
use multi_agent_rag_local.Common.{
  inl, inr, leb, Bool-cases, leb→le, ℕ, zero, suc, ◌+◌, ◌*◌, ◌≤◌, ◌<◌, String, ◌≡◌, refl, true, [],
  ◌∷◌, arith, eq_refl, if◌then◌else◌, is_some, length, ℤ, max_zero,
}

prune-length : (now : ℕ) (d : OrderedDict (ℕ × StateData)) → length (prune now d) ≤ length d
unfolding prune
prune-length now [] = omega arith
prune-length now ((state, (expires_at, payload)) ∷ d) = ground (arith, prune-length now d)

length-erase :
    (state : String) (d : OrderedDict (ℕ × StateData)) → length (erase state d) ≤ length d
unfolding erase
length-erase state [] = omega arith
length-erase state ((j, v) ∷ d) = ground (arith, length-erase state d)

-- Dropping a key that is there makes the dict shorter.
erase-shorter :
    (state : String) (d : OrderedDict (ℕ × StateData))
    → is_some (lookup state d) ≡ true
    → length (erase state d) < length d
unfolding erase lookup
erase-shorter state [] h = cc
erase-shorter state ((j, v) ∷ d) h = ground (arith, erase-shorter state d, length-erase state d)

oldest-there :
    (state : String) (expires_at : ℕ) (payload : StateData) (d : OrderedDict (ℕ × StateData))
    → is_some (lookup (oldest (state, expires_at) d) ((state, (expires_at, payload)) ∷ d)) ≡ true
unfolding oldest lookup
oldest-there state expires_at payload [] = ground (arith, eq_refl state)
oldest-there state expires_at payload ((other, (other_at, held)) ∷ d) = ground (
  arith,
  oldest-there state expires_at payload d,
  oldest-there other other_at held d,
  eq_refl state,
)

pop_oldest_state-shorter :
    (d : OrderedDict (ℕ × StateData)) → 0 < length d → length (pop_oldest_state d) < length d
unfolding pop_oldest_state
pop_oldest_state-shorter [] h = absurd (omega (arith, h))
pop_oldest_state-shorter ((state, (expires_at, payload)) ∷ d) h =
    erase-shorter (oldest (state, expires_at) d) ((state, (expires_at, payload)) ∷ d)
      (oldest-there state expires_at payload d)

-- The loop makes room within its fuel.
make_room-length :
    (fuel : ℕ) (d : OrderedDict (ℕ × StateData))
    → length d ≤ fuel
    → length (make_room fuel d) < max_memory_entries
unfolding make_room
make_room-length zero d h = omega (arith, h)
make_room-length (suc fuel) d h = elim (Bool-cases (leb max_memory_entries (length d))) [
  | inr e ↦ rw (make_room, e) (ground (arith, e))
  | inl e ↦
      let full : max_memory_entries ≤ length d = leb→le max_memory_entries (length d) e in
      let shorter = pop_oldest_state-shorter d (omega (arith, full)) in
      rw (make_room, e) (make_room-length fuel (pop_oldest_state d) (omega (arith, shorter, h)))
]

length-insert :
    (state : String) (entry : ℕ × StateData) (d : OrderedDict (ℕ × StateData))
    → length (insert state entry d)
      ≡ (if is_some (lookup state d) then length d else suc (length d))
unfolding insert lookup
length-insert state entry [] = refl
length-insert state entry ((j, v) ∷ d) = ground (arith, length-insert state entry d)

-- The memory never has more than 1,024 entries after a state has been stored, if it had no more before.
pub store_memory-length :
    (now : ℕ) (state : String) (payload : StateData) (ttl_seconds : ℤ)
    (memory : OrderedDict (ℕ × StateData))
    → length memory ≤ max_memory_entries
    → length (store_memory now state payload ttl_seconds memory) ≤ max_memory_entries
unfolding store_memory
store_memory-length now state payload ttl_seconds memory h =
    let pruned = prune now memory in
    let entry : ℕ × StateData = (now + max_zero ttl_seconds * 1_000_000, payload) in
    let room = make_room (length pruned) pruned in
    ground (
      arith,
      prune-length now memory,
      length-insert state entry pruned,
      length-insert state entry room,
      make_room-length (length pruned) pruned (omega arith),
    )
