-- ===== src/Examples/Approvals.antt =====
-- The approval store on concrete inputs.
use multi_agent_rag_local.Mcp.Approvals.Framing.{call_bytes-values}
use multi_agent_rag_local.Mcp.Approvals.Once.{approved_call-consume, consume-once}
use multi_agent_rag_local.OrderedDict.{lookup, insert}
use multi_agent_rag_local.Mcp.Approvals.Redeeming.{used, perform_all-Sound}
use multi_agent_rag_local.Mcp.Approvals.Lifecycle.{
  approves, creates, Operation, perform, SoundStore, perform_all,
}
use multi_agent_rag_local.Domain.{RequestActor}
use multi_agent_rag_local.Mcp.Approvals.{
  to_bytes, framed, ToolArgument, call_bytes, ApprovalRequest, approved_call, call_values,
  matches_call, call_fingerprint, request_for_actor, actor_id, approve, create, consume,
  ApprovalStore, Hashing, ToolCall,
}
use multi_agent_rag_local.Common.{
  String, ◌||◌, ◌==◌, if◌then◌else◌, map, arith, ◌≡◌, refl, sym, true, false, none, some, List, [],
  ◌∷◌,
}

abbrev toy_hashing : Hashing
toy_hashing = record { encode = λ text. []; hexdigest = λ bytes. "digest" }

abbrev user : RequestActor
user = record {
  user_id = some "u";
  tenant_id = none;
  username = none;
  role = none;
  permissions = [];
}

abbrev plain_call : ToolCall
plain_call = record {
  tool_id = "querymind_mail_send";
  arguments = record { name = "to"; value = "boss" } ∷ [];
  approval_token = none;
  execution_id = "run-1";
}

abbrev token_call : ToolCall
token_call = record plain_call { approval_token = some "token" }

abbrev history : List (Operation toy_hashing)
history = creates plain_call user "token" 0 ∷ approves "token" user 1_000 ∷ []

-- The store with one approved request.
abbrev approved_store : ApprovalStore
approved_store =
    (
      "token",
      record {
        token = "token";
        tool_id = "querymind_mail_send";
        actor_id = "u";
        arguments = record { name = "to"; value = "boss" } ∷ [];
        call_fingerprint = "digest";
        expires_at = 300_000_000;
        approved = true;
        approved_by = some "u";
        consumed = false;
      },
    )
    ∷ []

history_lem : perform_all toy_hashing history [] ≡ approved_store
unfolding perform_all perform create approve actor_id request_for_actor call_fingerprint insert
    lookup
history_lem = refl

approved_store-Sound : SoundStore toy_hashing approved_store
approved_store-Sound = rw (sym history_lem) (perform_all-Sound toy_hashing history)

perform_all-Sound_example : SoundStore toy_hashing (perform_all toy_hashing history [])
perform_all-Sound_example = perform_all-Sound toy_hashing history

consume-once_example :
    let later =
      perform_all toy_hashing [] (consume toy_hashing token_call user 2_000 approved_store).1 in
    consume toy_hashing token_call user 3_000 later ≡ (none, later)
unfolding consume request_for_actor matches_call call_fingerprint actor_id lookup
consume-once_example =
    consume-once toy_hashing token_call token_call user user 2_000 3_000 approved_store [] "token"
      approved_store-Sound refl refl refl tt

approved_call-consume_example :
    (r : ApprovalRequest) × (lookup "token" approved_store ≡ some r)
    × (consume toy_hashing token_call user 2_000 approved_store
        ≡ (some (used toy_hashing r), insert "token" (used toy_hashing r) approved_store))
unfolding approved_call request_for_actor actor_id lookup
approved_call-consume_example =
    approved_call-consume toy_hashing approved_store "token" user 2_000 "run-1" approved_store-Sound
      refl refl

-- An encoding that tells no capitals from small letters.
abbrev lower_hashing : Hashing
lower_hashing = record {
  encode = λ text.
      if text == "" then [] else if text == "to" || text == "To" then 116 ∷ 111 ∷ [] else 98 ∷ [];
  hexdigest = λ bytes. "digest";
}

abbrev recipient : String → List ToolArgument
recipient name = record { name = name; value = "boss" } ∷ []

call_bytes-values_example :
    map lower_hashing.encode (call_values "mail" (recipient "to"))
    ≡ map lower_hashing.encode (call_values "mail" (recipient "To"))
unfolding call_bytes framed to_bytes
call_bytes-values_example =
    call_bytes-values lower_hashing "mail" "mail" (recipient "to") (recipient "To")
      (omega arith, (omega arith, (omega arith, (omega arith, tt))))
      (omega arith, (omega arith, (omega arith, (omega arith, tt)))) refl
