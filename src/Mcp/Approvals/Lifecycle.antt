-- ===== src/Mcp/Approvals/Lifecycle.antt =====
-- approvals.py: who approves, and how often a token is used.
use multi_agent_rag_local.OrderedDict.{lookup-insert}
use multi_agent_rag_local.Mcp.Approvals.{
  ApprovalRequest, ApprovalStore, ToolCall, create, request_for_actor, expired, actor_id, consume,
  RequestActor, approve, call_fingerprint, insert, lookup, Hashing,
}
use multi_agent_rag_local.Common.{
  refl, sym, ◌∙◌, ◌||◌, Option-cases, ℕ, String, ◌≡◌, inl, inr, true, none, some, List, [], ◌∷◌,
  arith, ◌==◌, eq_iff, Bool-cases,
}
use mathlib.Core.Option.{some-injective}

module _ (h : Hashing) where
  -- What every stored request satisfies: it stands under its own token, carries the fingerprint of its
  -- own call, was approved by nobody but its actor, and was approved before it was consumed.
  pub record IsSound (key : String) (r : ApprovalRequest) : Type 0 where
    pub keyed : r.token ≡ key
    pub own_fingerprint : r.call_fingerprint ≡ call_fingerprint h r.tool_id r.arguments
    pub by_actor : r.approved ≡ true → r.approved_by ≡ some r.actor_id
    pub approved_first : r.consumed ≡ true → r.approved ≡ true

  pub record SoundStore (store : ApprovalStore) : Type 0 where
    pub at : (key : String) (r : ApprovalRequest) → lookup key store ≡ some r → IsSound key r

  moved : {key j : String} {r q : ApprovalRequest} → key ≡ j → r ≡ q → IsSound key r → IsSound j q
  moved place same own = rw (sym place, sym same) own

  pub insert-Sound :
      (key : String) (r : ApprovalRequest) (store : ApprovalStore)
      → IsSound key r
      → SoundStore store
      → SoundStore (insert key r store)
  insert-Sound key r store own sound = record {
    at = λ j q found.
        let f = sym (lookup-insert key j r store) ∙ found in
        elim (Bool-cases (key == j)) [
          | inl e ↦ moved ((eq_iff key j).0 e) (some-injective r q (rw e at f)) own
          | inr e ↦ sound.at j q (rw e at f)
        ];
  }

  pub request_for_actor-found :
      (store : ApprovalStore) (token : String) (actor : RequestActor) {r : ApprovalRequest}
      → request_for_actor store token actor ≡ some r
      → (lookup token store ≡ some r) × (actor_id actor ≡ some r.actor_id)
  unfolding request_for_actor
  request_for_actor-found store token actor {r} e = elim (Option-cases (lookup token store)) [
    | inl a ↦ ground arith
    | inr (p, a) ↦ elim (Option-cases (actor_id actor)) [
      | inl b ↦ ground arith
      | inr (user, b) ↦ ground (arith, eq_iff p.actor_id user)
    ]
  ]

  -- The operations, with the fresh token and the clock that each one is given.
  pub data Operation : Type 0 where
    creates : ToolCall → RequestActor → (token : String) → (now : ℕ) → Operation
    approves : (token : String) → RequestActor → (now : ℕ) → Operation
    consumes : ToolCall → RequestActor → (now : ℕ) → Operation

  -- An operation that raises leaves the store as it was.
  unfoldable pub perform : Operation → ApprovalStore → ApprovalStore
  unfolding create approve consume
  perform (creates call actor token now) store = elim (create h call actor token now store) [
    | none ↦ store
    | some (_, store') ↦ store'
  ]
  perform (approves token actor now) store = elim (approve token actor now store) [
    | none ↦ store
    | some store' ↦ store'
  ]
  perform (consumes call actor now) store = (consume h call actor now store).1

  unfoldable pub perform_all : List Operation → ApprovalStore → ApprovalStore
  unfolding perform
  perform_all [] store = store
  perform_all (op ∷ ops) store = perform_all ops (perform op store)

  pub create-Sound :
      (call : ToolCall) (actor : RequestActor) (token : String) (now : ℕ) (store : ApprovalStore)
      → SoundStore store
      → SoundStore (perform (creates call actor token now) store)
  unfolding perform create
  create-Sound call actor token now store sound = elim (Option-cases (actor_id actor)) [
    | inl a ↦ rw (a, perform, create) sound
    | inr (user, a) ↦
        rw (a, perform, create)
          (insert-Sound token _ store
            (record {
              keyed = refl;
              own_fingerprint = refl;
              by_actor = λ e. cc;
              approved_first = λ e. cc;
            })
            sound)
  ]

  pub approve-Sound :
      (token : String) (actor : RequestActor) (now : ℕ) (store : ApprovalStore)
      → SoundStore store
      → SoundStore (perform (approves token actor now) store)
  unfolding perform approve
  approve-Sound token actor now store sound =
      elim (Option-cases (request_for_actor store token actor)) [
        | inl a ↦ rw (a, perform, approve) sound
        | inr (r, a) ↦
            let (found, same) = request_for_actor-found store token actor a in
            let own = sound.at token r found in
            elim (Bool-cases (r.consumed || expired r now)) [
              | inl b ↦ rw (a, b, perform, approve) sound
              | inr b ↦
                  rw (a, b, perform, approve)
                    (insert-Sound token _ store
                      (record {
                        keyed = own.keyed;
                        own_fingerprint = own.own_fingerprint;
                        by_actor = λ e. same;
                        approved_first = λ e. refl;
                      })
                      sound)
            ]
      ]
