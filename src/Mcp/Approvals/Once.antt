-- ===== src/Mcp/Approvals/Once.antt =====
-- approvals.py: a token over the operations that follow its use, and the replay of a call.
use multi_agent_rag_local.Mcp.Approvals.Redeeming.{Redeems, consume-Redeems, consume-cases, used}
use mathlib.Core.Option.{some-injective, none-ne-some}
use mathlib.Core.Bool.{false≢true}
use multi_agent_rag_local.OrderedDict.{lookup-insert}
use multi_agent_rag_local.Mcp.Approvals.Lifecycle.{
  request_for_actor-found, Operation, SoundStore, approves, consumes, creates, perform, perform_all,
}
use multi_agent_rag_local.Mcp.Approvals.{
  expired, actor_id, request_for_actor, consume, RequestActor, approve, create, insert, lookup,
  ApprovalRequest, ApprovalStore, ToolCall, approved_call, Hashing,
}
use multi_agent_rag_local.Common.{
  not, Option, ℕ, String, ◌≡◌, refl, sym, ap, ◌∙◌, inl, inr, true, false, ◌||◌, none, some, List,
  [], ◌∷◌, arith, ◌==◌, eq_iff, eq_refl, Bool-cases, Option-cases, All,
}

-- approvals.py: a token is consumed at most once, and what `approved_call` rebuilds is accepted.
-- The call that `approved_call` rebuilds.
abbrev rebuilt : ApprovalRequest → String → String → ToolCall
rebuilt r token execution_id = record {
  tool_id = r.tool_id;
  arguments = r.arguments;
  approval_token = some token;
  execution_id = execution_id;
}

module _ (h : Hashing) where
  pub record Spent (token : String) (store : ApprovalStore) : Type 0 where
    pub request : ApprovalRequest
    pub found : lookup token store ≡ some request
    pub is_consumed : request.consumed ≡ true

  -- No later request draws the token again, as `uuid4` promises.
  abbrev pub Fresh : String → Operation h → Type 0
  Fresh token (creates call actor drawn now) = (drawn == token) ≡ false
  Fresh token (approves _ _ _) = Unit
  Fresh token (consumes _ _ _) = Unit

  insert-Spent :
      (token key : String) (r : ApprovalRequest) (store : ApprovalStore)
      → ((key == token) ≡ true → r.consumed ≡ true)
      → Spent token store
      → Spent token (insert key r store)
  insert-Spent token key r store k s = elim (Bool-cases (key == token)) [
    | inl e ↦ record { request = r; found = rw (lookup-insert, e) refl; is_consumed = k e }
    | inr e ↦ record {
      request = s.request;
      found = rw (lookup-insert, e) s.found;
      is_consumed = s.is_consumed;
    }
  ]

  -- A request that is still unused does not stand under a spent token.
  unused_elsewhere :
      (token key : String) (r : ApprovalRequest) (store : ApprovalStore)
      → Spent token store
      → lookup key store ≡ some r
      → r.consumed ≡ false
      → (key == token) ≡ false
  unused_elsewhere token key r store s found unused = elim (Bool-cases (key == token)) [
    | inr e ↦ e
    | inl e ↦
        let same : key ≡ token = (eq_iff key token).0 e in
        let r_same : r ≡ s.request =
          some-injective r s.request (sym found ∙ ap (λ k. lookup k store) same ∙ s.found) in
        absurd (
          false≢true (sym unused ∙ ap (λ (q : ApprovalRequest). q.consumed) r_same ∙ s.is_consumed))
  ]

  approve-Spent :
      (token key : String) (actor : RequestActor) (now : ℕ) (store : ApprovalStore)
      → Spent token store
      → Spent token (perform h (approves key actor now) store)
  unfolding perform approve
  approve-Spent token key actor now store s =
      elim (Option-cases (request_for_actor store key actor)) [
        | inl a ↦ rw (a, perform, approve) s
        | inr (r, a) ↦ elim (Bool-cases (r.consumed || expired r now)) [
          | inl b ↦ rw (a, b, perform, approve) s
          | inr b ↦
              let found = (request_for_actor-found h store key actor a).0 in
              let other = unused_elsewhere token key r store s found (ground arith) in
              rw (a, b, perform, approve)
                (insert-Spent token key _ store (λ e. absurd (false≢true (sym other ∙ e))) s)
        ]
      ]

  consume-Spent :
      (token : String) (call : ToolCall) (actor : RequestActor) (now : ℕ) (store : ApprovalStore)
      → Spent token store
      → Spent token (perform h (consumes call actor now) store)
  unfolding perform
  consume-Spent token call actor now store s = elim (consume-cases h call actor now store) [
    | inr e ↦ rw (e, perform) s
    | inl (r, p, e) ↦ rw (e, perform) (insert-Spent token r.token _ store (λ _. refl) s)
  ]

  create-Spent :
      (token : String) (call : ToolCall) (actor : RequestActor) (drawn : String) (now : ℕ)
      (store : ApprovalStore)
      → (drawn == token) ≡ false
      → Spent token store
      → Spent token (perform h (creates call actor drawn now) store)
  unfolding perform create
  create-Spent token call actor drawn now store other s = elim (Option-cases (actor_id actor)) [
    | inl a ↦ rw (a, perform, create) s
    | inr (user, a) ↦
        rw (a, perform, create)
          (insert-Spent token drawn _ store (λ e. absurd (false≢true (sym other ∙ e))) s)
  ]

  perform_all-Spent :
      (token : String) (ops : List (Operation h)) (store : ApprovalStore)
      → All (Fresh token) ops
      → Spent token store
      → Spent token (perform_all h ops store)
  unfolding perform_all
  perform_all-Spent token [] store fresh s = s
  perform_all-Spent token (creates call actor drawn now ∷ ops) store (f, fresh) s =
      perform_all-Spent token ops _ fresh (create-Spent token call actor drawn now store f s)
  perform_all-Spent token (approves key actor now ∷ ops) store (_, fresh) s =
      perform_all-Spent token ops _ fresh (approve-Spent token key actor now store s)
  perform_all-Spent token (consumes call actor now ∷ ops) store (_, fresh) s =
      perform_all-Spent token ops _ fresh (consume-Spent token call actor now store s)

  consume-Spent-none :
      (token : String) (call : ToolCall) (actor : RequestActor) (now : ℕ) (store : ApprovalStore)
      → call.approval_token ≡ some token
      → Spent token store
      → consume h call actor now store ≡ (none, store)
  consume-Spent-none token call actor now store carried s =
      elim (consume-cases h call actor now store) [
        | inr e ↦ e
        | inl (r, p, e) ↦
            let same : p.token ≡ token = some-injective p.token token (sym p.carried ∙ carried) in
            let other = unused_elsewhere token p.token r store s p.found p.unused in
            absurd (false≢true (sym other ∙ (eq_iff p.token token).1 same))
      ]

  -- Once a call has consumed a token in a sound store, no call that carries the token consumes anything
  -- again, whatever was created, approved or consumed in between, as long as no new request draws the
  -- same token.
  pub consume-once :
      (first second : ToolCall) (a b : RequestActor) (m n : ℕ) (store : ApprovalStore)
      (ops : List (Operation h)) {r : ApprovalRequest} (token : String)
      → SoundStore h store
      → (consume h first a m store).0 ≡ some r
      → first.approval_token ≡ some token
      → second.approval_token ≡ some token
      → All (Fresh token) ops
      → let later = perform_all h ops (consume h first a m store).1 in
        consume h second b n later ≡ (none, later)
  consume-once first second a b m n store ops token sound done carried again fresh =
      elim (consume-cases h first a m store) [
        | inr e ↦ absurd (
            none-ne-some _
              (sym (ap (λ (p : Option ApprovalRequest × ApprovalStore). p.0) e) ∙ done))
        | inl (r, p, e) ↦
            let same : p.token ≡ token = some-injective p.token token (sym p.carried ∙ carried) in
            let keyed : r.token ≡ token = (sound.at p.token r p.found).keyed ∙ same in
            let spent : Spent token (consume h first a m store).1 = rw e (record {
              request = used h r;
              found = rw (lookup-insert, keyed, eq_refl token) refl;
              is_consumed = refl;
            }) in
            consume-Spent-none token second b n _ again (perform_all-Spent token ops _ fresh spent)
      ]

  -- In a sound store, the call that `approved_call` rebuilds is one that `consume` accepts for the same
  -- actor at the same time, whatever execution it belongs to: its request is returned and is consumed.
  pub approved_call-consume :
      (store : ApprovalStore) (token : String) (actor : RequestActor) (now : ℕ)
      (execution_id : String) {call : ToolCall}
      → SoundStore h store
      → (token == "") ≡ false
      → approved_call store token actor now execution_id ≡ some call
      → (r : ApprovalRequest) × (lookup token store ≡ some r)
        × (consume h call actor now store ≡ (some (used h r), insert token (used h r) store))
  unfolding approved_call
  approved_call-consume store token actor now execution_id {call} sound nonempty e =
      elim (Option-cases (request_for_actor store token actor)) [
        | inl a ↦ absurd (none-ne-some _ (rw (a, approved_call) at e))
        | inr (r, a) ↦
            let (found, own) = request_for_actor-found h store token actor a in
            let s = sound.at token r found in
            elim (Bool-cases (not r.approved || r.consumed || expired r now)) [
              | inl b ↦ absurd (none-ne-some _ (rw (a, b, approved_call) at e))
              | inr b ↦
                  let same =
                    some-injective (rebuilt r token execution_id) call
                      (rw (a, b, approved_call) at e) in
                  let p : Redeems h call actor now store r = rw (sym same) (record {
                    token = token;
                    carried = refl;
                    nonempty = nonempty;
                    found = found;
                    own = own;
                    same_tool = refl;
                    same_call = s.own_fingerprint;
                    approved = ground arith;
                    unused = ground arith;
                    in_time = ground arith;
                  }) in
                  (
                    r,
                    found,
                    consume-Redeems h call actor now store r p
                        ∙ ap (λ t. (some (used h r), insert t (used h r) store)) s.keyed,
                  )
            ]
      ]
