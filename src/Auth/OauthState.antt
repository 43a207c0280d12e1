-- ===== src/Auth/OauthState.antt =====
-- app/services/auth/oauth_state.py. An instant is a number of microseconds of `time.monotonic`, and
-- each operation is given the one that it reads. The Redis client, `json` and the random tokens are
-- parameters; a command of the client that raises has no value.
use multi_agent_rag_local.Common.{
  ℕ, zero, suc, ◌+◌, ◌*◌, String, Bool, true, false, Option, none, some, List, [], ◌∷◌, ◌==◌, ltb,
  leb, if◌then◌else◌, is_some, or_default, length, ℤ, max_zero,
}
use Prim.Native.String.{◌++◌ as append}
use multi_agent_rag_local.OrderedDict.{OrderedDict, insert, lookup, erase}
pub mod Consumed
pub mod Bounded

abbrev pub StateData : Type 0
StateData = OrderedDict String

-- The commands that the store sends, over the state of the server. `getdel` reads a key and deletes it
-- in one step, by whichever command the server has.
pub record RedisClient (R : Type 0) : Type 0 where
  pub exists : String → R → Option Bool
  pub setex : String → ℤ → String → R → Option R
  pub get_key : String → R → Option (Option String)
  pub delete_key : String → R → Option R
  pub getdel : String → R → Option (Option String × R)

pub record Json : Type 0 where
  pub dumps : StateData → String
  pub loads : String → Option StateData

pub record OauthStore (R : Type 0) : Type 0 where
  pub memory : OrderedDict (ℕ × StateData)
  pub redis : R

abbrev pub max_memory_entries : ℕ
max_memory_entries = 1024

abbrev pub key_of : String → String
key_of state = append "oauth:state:" state

-- `_prune_memory_locked`
unfoldable pub prune : (now : ℕ) → OrderedDict (ℕ × StateData) → OrderedDict (ℕ × StateData)
prune now [] = []
prune now ((state, (expires_at, payload)) ∷ d) =
    let rest = prune now d in
    if leb expires_at now then rest else (state, (expires_at, payload)) ∷ rest

-- The entry that expires first, the earliest in the dict among equals.
unfoldable pub oldest : String × ℕ → OrderedDict (ℕ × StateData) → String
oldest (state, expires_at) [] = state
oldest (state, expires_at) ((other, (other_at, payload)) ∷ d) =
    let next = oldest (other, other_at) d in
    let same = oldest (state, expires_at) d in if ltb other_at expires_at then next else same

unfoldable pub pop_oldest_state : OrderedDict (ℕ × StateData) → OrderedDict (ℕ × StateData)
unfolding oldest
pop_oldest_state [] = []
pop_oldest_state ((state, (expires_at, payload)) ∷ d) =
    erase (oldest (state, expires_at) d) ((state, (expires_at, payload)) ∷ d)

-- `while len(self._memory) >= self._MAX_MEMORY_ENTRIES`, on fuel.
unfoldable pub make_room : ℕ → OrderedDict (ℕ × StateData) → OrderedDict (ℕ × StateData)
unfolding pop_oldest_state
make_room zero d = d
make_room (suc fuel) d =
    let rest = make_room fuel (pop_oldest_state d) in
    if leb max_memory_entries (length d) then rest else d

-- The part of `store` under the lock.
unfoldable pub store_memory :
    (now : ℕ)
    → String
    → StateData
    → (ttl_seconds : ℤ) → OrderedDict (ℕ × StateData)
    → OrderedDict (ℕ × StateData)
unfolding prune make_room
store_memory now state payload ttl_seconds memory =
    let pruned = prune now memory in
    let entry : ℕ × StateData = (now + max_zero ttl_seconds * 1_000_000, payload) in
    if is_some (lookup state pruned)
    then insert state entry pruned
    else insert state entry (make_room (length pruned) pruned)

-- `_pop_memory`
unfoldable pub pop_memory :
    (now : ℕ)
    → String
    → OrderedDict (ℕ × StateData)
    → Option StateData × OrderedDict (ℕ × StateData)
pop_memory now state memory = elim (lookup state memory) [
  | none ↦ (none, memory)
  | some (expires_at, payload) ↦
      (if leb expires_at now then none else some payload, erase state memory)
]

-- `_get_memory`
unfoldable pub get_memory :
    (now : ℕ)
    → String
    → OrderedDict (ℕ × StateData)
    → Option StateData × OrderedDict (ℕ × StateData)
get_memory now state memory = elim (lookup state memory) [
  | none ↦ (none, memory)
  | some (expires_at, payload) ↦
      if leb expires_at now then (none, erase state memory) else (some payload, memory)
]

-- `_exists`, without Redis: an entry that has expired is dropped.
unfoldable pub exists_memory :
    (now : ℕ) → String → OrderedDict (ℕ × StateData) → Bool × OrderedDict (ℕ × StateData)
exists_memory now state memory = elim (lookup state memory) [
  | none ↦ (false, memory)
  | some (expires_at, payload) ↦
      if ltb now expires_at then (true, memory) else (false, erase state memory)
]

module _ {R : Type 0} (json : Json) (client : Option (RedisClient R)) where
  -- A command of the client, if there is one: no value without a client or when it raises.
  abbrev pub ask {ℓ} : {A : Type ℓ} → (RedisClient R → Option A) → Option A
  ask command = elim client [ none ↦ none | some c ↦ command c ]

  -- `_exists`
  unfoldable pub state_exists : (now : ℕ) → String → OauthStore R → Bool × OauthStore R
  unfolding exists_memory
  state_exists now state s = elim (ask (λ c. c.exists (key_of state) s.redis)) [
    | some found ↦ (found, s)
    | none ↦
        let (found, memory) = exists_memory now state s.memory in
        (found, record s { memory = memory })
  ]

  -- `store`
  unfoldable pub store_state :
      (now : ℕ) → String → StateData → (ttl_seconds : ℤ) → OauthStore R → OauthStore R
  unfolding store_memory
  store_state now state payload ttl_seconds s =
      elim (ask (λ c. c.setex (key_of state) ttl_seconds (json.dumps payload) s.redis)) [
        | some redis ↦ record s { redis = redis }
        | none ↦ record s { memory = store_memory now state payload ttl_seconds s.memory }
      ]

  -- `create`: the tokens of the attempts, and the one that is taken when all of them exist.
  unfoldable pub create_state :
      (now : ℕ)
      → (attempts : List String) → (last : String) → StateData
      → (ttl_seconds : ℤ) → OauthStore R
      → String × OauthStore R
  unfolding state_exists store_state
  create_state now [] last payload ttl_seconds s =
      (last, store_state now last payload ttl_seconds s)
  create_state now (state ∷ attempts) last payload ttl_seconds s =
      let (found, s') = state_exists now state s in
      let next = create_state now attempts last payload ttl_seconds s' in
      if found then next else (state, store_state now state payload ttl_seconds s')

  -- `get`: an empty text is falsy.
  unfoldable pub get_state : (now : ℕ) → String → OauthStore R → Option StateData × OauthStore R
  unfolding get_memory
  get_state now state s =
      let (payload, memory) = get_memory now state s.memory in
      let fallback : Option StateData × OauthStore R = (payload, record s { memory = memory }) in
      elim (ask (λ c. c.get_key (key_of state) s.redis)) [
        | none ↦ fallback
        | some none ↦ fallback
        | some (some value) ↦
            if value == ""
            then fallback
            else elim (json.loads value) [ none ↦ fallback | some found ↦ (some found, s) ]
      ]

  -- `delete`
  unfoldable pub delete_state : String → OauthStore R → OauthStore R
  delete_state state s = record {
    memory = erase state s.memory;
    redis = or_default s.redis (ask (λ c. c.delete_key (key_of state) s.redis));
  }

  -- `_consume`, after the answer of the server: an answer that is not JSON gives nothing.
  unfoldable pub answered :
      (held : Option StateData)
      → OauthStore R
      → Option (Option String × R)
      → Option StateData × OauthStore R
  answered held popped none = (held, popped)
  answered held popped (some (none, redis)) = (held, record popped { redis = redis })
  answered held popped (some (some value, redis)) =
      if value == ""
      then (held, record popped { redis = redis })
      else (json.loads value, record popped { redis = redis })

  unfoldable pub take_state : (now : ℕ) → String → OauthStore R → Option StateData × OauthStore R
  unfolding pop_memory answered
  take_state now state s =
      let (held, memory) = pop_memory now state s.memory in
      answered held (record s { memory = memory }) (ask (λ c. c.getdel (key_of state) s.redis))

  -- `consume`, for a state that is not `None`: an error code, and the stored address.
  unfoldable pub consume_state :
      (now : ℕ)
      → String
      → (client_ip : String) → OauthStore R
      → (Option String × Option String) × OauthStore R
  unfolding take_state
  consume_state now state client_ip s =
      let (payload, taken) = take_state now state s in
      let refused : Option String × Option String = (some "invalid_state", none) in
      if state == "" then (refused, s) else elim payload [
        | none ↦ (refused, taken)
        | some [] ↦ (refused, taken)
        | some (entry ∷ entries) ↦ elim (lookup "ip" (entry ∷ entries)) [
          | none ↦ ((some "security_check_failed", some "None"), taken)
          | some stored_ip ↦
              if stored_ip == client_ip
              then ((none, some stored_ip), taken)
              else ((some "security_check_failed", some stored_ip), taken)
        ]
      ]
