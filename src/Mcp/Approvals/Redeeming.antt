-- ===== src/Mcp/Approvals/Redeeming.antt =====
-- approvals.py: what `consume` accepts.
use multi_agent_rag_local.OrderedDict.{lookup-empty}
use mathlib.Core.Option.{none-ne-some}
use multi_agent_rag_local.Mcp.Approvals.Lifecycle.{
  approve-Sound, approves, create-Sound, insert-Sound, request_for_actor-found, consumes, creates,
  SoundStore, Operation, perform, perform_all,
}
use multi_agent_rag_local.Mcp.Approvals.{
  actor_id, insert, lookup, ApprovalStore, RequestActor, call_fingerprint, consume_token,
  ApprovalRequest, ToolCall, consume, matches_call, request_for_actor, Hashing,
}
use multi_agent_rag_local.Common.{
  sym, ◌∙◌, ℕ, ◌<◌, String, ◌≡◌, refl, ◌⊎◌, inl, inr, true, false, none, some, List, [], ◌∷◌, arith,
  ◌==◌, eq_iff, eq_refl, Bool-cases, Option-cases,
}

module _ (h : Hashing) where
  -- A pending request that a call by an actor may consume now.
  pub record Redeems (call : ToolCall) (actor : RequestActor) (now : ℕ) (store : ApprovalStore)
      (r : ApprovalRequest) : Type 0 where
    pub token : String
    pub carried : call.approval_token ≡ some token
    pub nonempty : (token == "") ≡ false
    pub found : lookup token store ≡ some r
    pub own : actor_id actor ≡ some r.actor_id
    pub same_tool : r.tool_id ≡ call.tool_id
    pub same_call : r.call_fingerprint ≡ call_fingerprint h call.tool_id call.arguments
    pub approved : r.approved ≡ true
    pub unused : r.consumed ≡ false
    pub in_time : now < r.expires_at

  abbrev pub used : ApprovalRequest → ApprovalRequest
  used r = record r { consumed = true }

  matches_call_iff :
      (r : ApprovalRequest) (call : ToolCall) (now : ℕ)
      → matches_call h r call now ≡ true
      → (r.tool_id ≡ call.tool_id)
        × (r.call_fingerprint ≡ call_fingerprint h call.tool_id call.arguments)
        × (r.approved ≡ true)
        × (r.consumed ≡ false)
        × (now < r.expires_at)
  unfolding matches_call
  matches_call_iff r call now e = ground (
    arith,
    eq_iff r.tool_id call.tool_id,
    eq_iff r.call_fingerprint (call_fingerprint h call.tool_id call.arguments),
  )

  matches_call-of :
      (r : ApprovalRequest) (call : ToolCall) (now : ℕ)
      → r.tool_id ≡ call.tool_id
      → r.call_fingerprint ≡ call_fingerprint h call.tool_id call.arguments
      → r.approved ≡ true
      → r.consumed ≡ false
      → now < r.expires_at
      → matches_call h r call now ≡ true
  unfolding matches_call
  matches_call-of r call now a b c d e = ground (
    arith,
    eq_iff r.tool_id call.tool_id,
    eq_iff r.call_fingerprint (call_fingerprint h call.tool_id call.arguments),
  )

  -- A call either consumes a request that it redeems, which is then returned and stored as consumed, or
  -- it returns none and leaves the store alone.
  pub consume-cases :
      (call : ToolCall) (actor : RequestActor) (now : ℕ) (store : ApprovalStore)
      → ((r : ApprovalRequest) × Redeems call actor now store r
          × (consume h call actor now store ≡ (some (used r), insert r.token (used r) store)))
        ⊎ (consume h call actor now store ≡ (none, store))
  unfolding consume consume_token
  consume-cases call actor now store = elim (Option-cases call.approval_token) [
    | inl a ↦ inr (rw (a, consume) refl)
    | inr (token, a) ↦ elim (Bool-cases (token == "")) [
      | inl b ↦ inr (rw (a, b, consume) refl)
      | inr b ↦ elim (Option-cases (request_for_actor store token actor)) [
        | inl c ↦ inr (rw (a, b, c, consume, consume_token) refl)
        | inr (r, c) ↦ elim (Bool-cases (matches_call h r call now)) [
          | inl d ↦
              let (found, own) = request_for_actor-found h store token actor c in
              let (same_tool, same_call, approved, unused, in_time) =
                matches_call_iff r call now d in
              inl (
                r,
                record {
                  token = token;
                  carried = a;
                  nonempty = b;
                  found = found;
                  own = own;
                  same_tool = same_tool;
                  same_call = same_call;
                  approved = approved;
                  unused = unused;
                  in_time = in_time;
                },
                rw (a, b, c, d, consume, consume_token) refl,
              )
          | inr d ↦ inr (rw (a, b, c, d, consume, consume_token) refl)
        ]
      ]
    ]
  ]

  request_for_actor-of :
      (store : ApprovalStore) (token : String) (actor : RequestActor) {r : ApprovalRequest}
      → lookup token store ≡ some r
      → actor_id actor ≡ some r.actor_id
      → request_for_actor store token actor ≡ some r
  unfolding request_for_actor
  request_for_actor-of store token actor {r} a b =
      rw (a, b, eq_refl r.actor_id, request_for_actor) refl

  -- Every request that a call redeems is consumed.
  pub consume-Redeems :
      (call : ToolCall) (actor : RequestActor) (now : ℕ) (store : ApprovalStore)
      (r : ApprovalRequest)
      → Redeems call actor now store r
      → consume h call actor now store ≡ (some (used r), insert r.token (used r) store)
  unfolding consume consume_token
  consume-Redeems call actor now store r p =
      let c = request_for_actor-of store p.token actor p.found p.own in
      let d = matches_call-of r call now p.same_tool p.same_call p.approved p.unused p.in_time in
      rw (p.carried, p.nonempty, c, d, consume, consume_token) refl

  consume-Sound :
      (call : ToolCall) (actor : RequestActor) (now : ℕ) (store : ApprovalStore)
      → SoundStore h store
      → SoundStore h (perform h (consumes call actor now) store)
  unfolding perform
  consume-Sound call actor now store sound = elim (consume-cases call actor now store) [
    | inr e ↦ rw (e, perform) sound
    | inl (r, p, e) ↦
        let own = sound.at p.token r p.found in
        rw (e, perform)
          (insert-Sound h r.token _ store
            (record {
              keyed = refl;
              own_fingerprint = own.own_fingerprint;
              by_actor = own.by_actor;
              approved_first = λ _. p.approved;
            })
            sound)
  ]

  pub perform-Sound :
      (op : Operation h) (store : ApprovalStore)
      → SoundStore h store
      → SoundStore h (perform h op store)
  perform-Sound (creates call actor token now) store sound =
      create-Sound h call actor token now store sound
  perform-Sound (approves token actor now) store sound = approve-Sound h token actor now store sound
  perform-Sound (consumes call actor now) store sound = consume-Sound call actor now store sound

  perform_all-Sound_from :
      (ops : List (Operation h)) (store : ApprovalStore)
      → SoundStore h store
      → SoundStore h (perform_all h ops store)
  unfolding perform_all
  perform_all-Sound_from [] store sound = sound
  perform_all-Sound_from (op ∷ ops) store sound =
      perform_all-Sound_from ops _ (perform-Sound op store sound)

  -- After any operations on an empty store, every request stands under its own token with the
  -- fingerprint of its own call, was approved by nobody but the actor that it was created for, and
  -- was approved before it was consumed.
  pub perform_all-Sound : (ops : List (Operation h)) → SoundStore h (perform_all h ops [])
  perform_all-Sound ops =
      perform_all-Sound_from ops []
        (record { at = λ key r e. absurd (none-ne-some _ (sym (lookup-empty key) ∙ e)) })
