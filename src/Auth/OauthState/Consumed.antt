-- ===== src/Auth/OauthState/Consumed.antt =====
-- oauth_state.py: a state is good for one callback.
use mathlib.Core.Option.{none-ne-some}
use multi_agent_rag_local.OrderedDict.{
  lookup-empty, lookup-insert, lookup-erase, lookup, OrderedDict,
}
use multi_agent_rag_local.Auth.OauthState.{
  make_room, prune, store_state, store_memory, key_of, ask, OauthStore, StateData, answered,
  consume_state, take_state, RedisClient, Json, pop_memory,
}
use multi_agent_rag_local.Common.{
  sym, ◌+◌, ◌*◌, [], ◌∷◌, leb, if◌then◌else◌, length, ℤ, max_zero, ◌⊎◌, true, false, ◌==◌,
  Bool-cases, ℕ, String, ◌≡◌, refl, ap, ◌∙◌, inl, inr, Option, none, some, arith, eq_refl,
  Option-cases,
}

pop_memory-gone :
    (now : ℕ) (state : String) (memory : OrderedDict (ℕ × StateData))
    → lookup state (pop_memory now state memory).1 ≡ none
unfolding pop_memory
pop_memory-gone now state memory = elim (Option-cases (lookup state memory)) [
  | inl e ↦ rw (pop_memory, e) e
  | inr (entry, e) ↦
      rw (pop_memory, e) (ground (arith, lookup-erase state state memory, eq_refl state))
]

pop_memory-none :
    (now : ℕ) (state : String) (memory : OrderedDict (ℕ × StateData))
    → lookup state memory ≡ none
    → (pop_memory now state memory).0 ≡ none
unfolding pop_memory
pop_memory-none now state memory e = rw (pop_memory, e) refl

module _ {R : Type 0} (json : Json) where
  module _ (client : Option (RedisClient R)) where
    answered-memory :
        (held : Option StateData) (popped : OauthStore R) (answer : Option (Option String × R))
        → (answered json client held popped answer).1.memory ≡ popped.memory
    unfolding answered
    answered-memory held popped none = refl
    answered-memory held popped (some (none, redis)) = refl
    answered-memory held popped (some (some value, redis)) = ground arith

    taken-gone :
        (now : ℕ) (state : String) (s : OauthStore R)
        → lookup state (take_state json client now state s).1.memory ≡ none
    unfolding take_state
    taken-gone now state s =
        ap (λ (d : OrderedDict (ℕ × StateData)). lookup state d)
          (answered-memory (pop_memory now state s.memory).0
            (record s { memory = (pop_memory now state s.memory).1 })
            (ask json client (λ c. c.getdel (key_of state) s.redis)))
        ∙ pop_memory-gone now state s.memory

    consume_state-none :
        (now : ℕ) (state client_ip : String) (s : OauthStore R)
        → (take_state json client now state s).0 ≡ none
        → (consume_state json client now state client_ip s).0 ≡ (some "invalid_state", none)
    unfolding consume_state
    consume_state-none now state client_ip s e = elim (Bool-cases (state == "")) [
      | inl k ↦ rw (consume_state, k) refl
      | inr k ↦ rw (consume_state, k, e) refl
    ]

    consume_state-taken :
        (now : ℕ) (state client_ip : String) (s : OauthStore R)
        → (state == "") ≡ false
        → (consume_state json client now state client_ip s).1
          ≡ (take_state json client now state s).1
    unfolding consume_state
    consume_state-taken now state client_ip s k =
        elim (Option-cases (take_state json client now state s).0) [
          | inl e ↦ rw (consume_state, k, e) refl
          | inr (payload, e) ↦ rw (consume_state, k, e) (ground arith)
        ]

    consume_state-empty :
        (now : ℕ) (state client_ip : String) (s : OauthStore R)
        → (state == "") ≡ true
        → (consume_state json client now state client_ip s).0 ≡ (some "invalid_state", none)
    unfolding consume_state
    consume_state-empty now state client_ip s k = rw (consume_state, k) refl

    -- The server has nothing under the key of a state, or does not answer.
    abbrev pub IsForgotten : String → R → Type 0
    IsForgotten state redis =
        (ask json client (λ c. c.getdel (key_of state) redis) ≡ none)
        ⊎ ((redis' : R) × (ask json client (λ c. c.getdel (key_of state) redis)
              ≡ some (none, redis')))

    answered-forgotten :
        (held : Option StateData) (popped : OauthStore R) (answer : Option (Option String × R))
        → (answer ≡ none) ⊎ ((redis' : R) × (answer ≡ some (none, redis')))
        → (answered json client held popped answer).0 ≡ held
    unfolding answered
    answered-forgotten held popped answer (inl e) = rw e refl
    answered-forgotten held popped answer (inr (redis', e)) = rw e refl

    take_state-forgotten :
        (now : ℕ) (state : String) (s : OauthStore R)
        → lookup state s.memory ≡ none
        → IsForgotten state s.redis
        → (take_state json client now state s).0 ≡ none
    unfolding take_state
    take_state-forgotten now state s e gone =
        answered-forgotten (pop_memory now state s.memory).0
          (record s { memory = (pop_memory now state s.memory).1 })
          (ask json client (λ c. c.getdel (key_of state) s.redis)) gone
        ∙ pop_memory-none now state s.memory e

    -- A state that has been consumed, with whatever outcome, is refused later, from whatever address,
    -- when the server has nothing under its key after the first time, or does not answer.
    pub consume_state_again :
        (now later : ℕ) (state client_ip later_ip : String) (s : OauthStore R)
        → IsForgotten state (take_state json client now state s).1.redis
        → (consume_state json client later state later_ip
            (consume_state json client now state client_ip s).1).0
          ≡ (some "invalid_state", none)
    consume_state_again now later state client_ip later_ip s gone =
        elim (Bool-cases (state == "")) [
          | inl k ↦
              consume_state-empty later state later_ip
                (consume_state json client now state client_ip s).1 k
          | inr k ↦
              let taken = (take_state json client now state s).1 in
              rw (consume_state-taken now state client_ip s k) (
                consume_state-none later state later_ip taken
                  (take_state-forgotten later state taken (taken-gone now state s) gone))
        ]

lookup-store_memory :
    (now : ℕ) (state : String) (payload : StateData) (ttl_seconds : ℤ)
    (memory : OrderedDict (ℕ × StateData))
    → lookup state (store_memory now state payload ttl_seconds memory)
      ≡ some (now + max_zero ttl_seconds * 1_000_000, payload)
unfolding store_memory
lookup-store_memory now state payload ttl_seconds memory =
    let pruned = prune now memory in
    let entry : ℕ × StateData = (now + max_zero ttl_seconds * 1_000_000, payload) in
    ground (
      arith,
      eq_refl state,
      lookup-insert state state entry pruned,
      lookup-insert state state entry (make_room (length pruned) pruned),
    )

pop_memory-some :
    (now : ℕ) (state : String) (memory : OrderedDict (ℕ × StateData)) (expires_at : ℕ)
    (payload : StateData)
    → lookup state memory ≡ some (expires_at, payload)
    → (pop_memory now state memory).0 ≡ (if leb expires_at now then none else some payload)
unfolding pop_memory
pop_memory-some now state memory expires_at payload e = rw (pop_memory, e) refl

module _ {R : Type 0} (json : Json) where
  take_local :
      (now : ℕ) (state : String) (s : OauthStore R)
      → (take_state json none now state s).0 ≡ (pop_memory now state s.memory).0
  unfolding take_state answered
  take_local now state s = refl

  consume_state-some :
      (client : Option (RedisClient R)) (now : ℕ) (state ip client_ip : String)
      (payload : StateData) (s : OauthStore R)
      → (state == "") ≡ false
      → (take_state json client now state s).0 ≡ some payload
      → lookup "ip" payload ≡ some ip
      → (consume_state json client now state client_ip s).0
        ≡ (if ip == client_ip then none else some "security_check_failed", some ip)
  unfolding consume_state
  consume_state-some client now state ip client_ip [] s k e f =
      absurd (none-ne-some _ (sym (lookup-empty "ip") ∙ f))
  consume_state-some client now state ip client_ip (entry ∷ entries) s k e f =
      rw (consume_state, k, e, f) (ground arith)

  -- Without Redis, a state that was stored with an address is accepted from that address until its
  -- time is over, refused from another one, and unknown from then on.
  pub consume_state-store_state :
      (now later : ℕ) (state ip client_ip : String) (payload : StateData) (ttl_seconds : ℤ)
      (s : OauthStore R)
      → (state == "") ≡ false
      → lookup "ip" payload ≡ some ip
      → (consume_state json none later state client_ip
          (store_state json none now state payload ttl_seconds s)).0
        ≡ (if leb (now + max_zero ttl_seconds * 1_000_000) later
            then (some "invalid_state", none)
            else (if ip == client_ip then none else some "security_check_failed", some ip))
  unfolding store_state
  consume_state-store_state now later state ip client_ip payload ttl_seconds s k e =
      let expires_at = now + max_zero ttl_seconds * 1_000_000 in
      let stored = store_state json none now state payload ttl_seconds s in
      let held =
        take_local later state stored
        ∙ pop_memory-some later state stored.memory expires_at payload
            (lookup-store_memory now state payload ttl_seconds s.memory) in
      elim (Bool-cases (leb expires_at later)) [
        | inl over ↦
            rw over (consume_state-none json none later state client_ip stored (rw over at held))
        | inr live ↦
            rw live (
              consume_state-some none later state ip client_ip payload stored k (rw live at held) e)
      ]
