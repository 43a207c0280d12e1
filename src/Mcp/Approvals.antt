-- ===== src/Mcp/Approvals.antt =====
-- app/mcp/approvals.py over the contracts of app/mcp/contracts.py: one-time approval tokens. The clock
-- is a parameter, in microseconds. `none` where an operation of the store raises `ValueError`.
use multi_agent_rag_local.Domain.{RequestActor}
use multi_agent_rag_local.OrderedDict.{insert, lookup, OrderedDict}
use multi_agent_rag_local.Common.{
  ℕ, ◌+◌, ◌/◌, ◌%◌, String, Bool, true, false, not, ◌&&◌, ◌||◌, Option, none, some, List, [], ◌∷◌,
  ◌++◌, map, ◌==◌, leb, if◌then◌else◌, length,
}
pub mod Framing
pub mod Lifecycle
pub mod Redeeming
pub mod Once

pub record ToolArgument : Type 0 where
  pub name : String
  pub value : String

pub record ToolCall : Type 0 where
  pub tool_id : String
  pub arguments : List ToolArgument
  pub approval_token : Option String
  pub execution_id : String

pub record ApprovalRequest : Type 0 where
  pub token : String
  pub tool_id : String
  pub actor_id : String
  pub arguments : List ToolArgument
  pub call_fingerprint : String
  pub expires_at : ℕ
  pub approved : Bool
  pub approved_by : Option String
  pub consumed : Bool

-- `ApprovalStore._requests`
abbrev pub ApprovalStore : Type 0
ApprovalStore = OrderedDict ApprovalRequest

-- `_actor_id`: an actor without a user id, or with an empty one, is not authenticated.
unfoldable pub actor_id : RequestActor → Option String
actor_id actor = elim actor.user_id [
  | none ↦ none
  | some user ↦ if user == "" then none else some user
]

-- `str.encode("utf-8")` and `sha256(...).hexdigest()`, over lists of bytes.
pub record Hashing : Type 0 where
  pub encode : String → List ℕ
  pub hexdigest : List ℕ → String

-- `n.to_bytes(4, "big")`, for n below 2 ^ 32.
unfoldable pub to_bytes : ℕ → List ℕ
to_bytes n = n / 16_777_216 % 256 ∷ n / 65_536 % 256 ∷ n / 256 % 256 ∷ n % 256 ∷ []

-- What `digest.update` is given, call after call: each value behind its length.
unfoldable pub framed : List (List ℕ) → List ℕ
unfolding to_bytes
framed [] = []
framed (encoded ∷ rest) = to_bytes (length encoded) ++ (encoded ++ framed rest)

-- The values of the pairs, in the order of the two loops.
abbrev pub argument_values : List ToolArgument → List String
argument_values [] = []
argument_values (argument ∷ rest) = argument.name ∷ argument.value ∷ argument_values rest

abbrev pub call_values : String → List ToolArgument → List String
call_values tool_id arguments = tool_id ∷ "" ∷ argument_values arguments

module _ (h : Hashing) where
  unfoldable pub call_bytes : String → List ToolArgument → List ℕ
  unfolding framed
  call_bytes tool_id arguments = framed (map h.encode (call_values tool_id arguments))

  unfoldable pub call_fingerprint : String → List ToolArgument → String
  unfolding call_bytes
  call_fingerprint tool_id arguments = h.hexdigest (call_bytes tool_id arguments)

  -- The token is the fresh one that the field's default draws, five minutes from now it expires.
  unfoldable pub create :
      ToolCall
      → RequestActor
      → (token : String) → (now : ℕ) → ApprovalStore
      → Option (ApprovalRequest × ApprovalStore)
  create call actor token now store = elim (actor_id actor) [
    | none ↦ none
    | some user ↦
        let request : ApprovalRequest = record {
          token = token;
          tool_id = call.tool_id;
          actor_id = user;
          arguments = call.arguments;
          call_fingerprint = call_fingerprint call.tool_id call.arguments;
          expires_at = now + 300_000_000;
          approved = false;
          approved_by = none;
          consumed = false;
        } in
        some (request, insert token request store)
  ]

-- `_request_for_actor`
unfoldable pub request_for_actor : ApprovalStore → String → RequestActor → Option ApprovalRequest
request_for_actor store token actor = elim (lookup token store) [
  | none ↦ none
  | some request ↦ elim (actor_id actor) [
    | none ↦ none
    | some user ↦ if request.actor_id == user then some request else none
  ]
]

abbrev pub expired : ApprovalRequest → ℕ → Bool
expired request now = leb request.expires_at now

-- The call that `approved_call` rebuilds draws a fresh execution id.
unfoldable pub approved_call :
    ApprovalStore → String → RequestActor → (now : ℕ) → (execution_id : String) → Option ToolCall
unfolding request_for_actor
approved_call store token actor now execution_id = elim (request_for_actor store token actor) [
  | none ↦ none
  | some request ↦
      if not request.approved || request.consumed || expired request now
      then none
      else some (record {
        tool_id = request.tool_id;
        arguments = request.arguments;
        approval_token = some token;
        execution_id = execution_id;
      })
]

unfoldable pub approve : String → RequestActor → (now : ℕ) → ApprovalStore → Option ApprovalStore
unfolding request_for_actor
approve token actor now store = elim (request_for_actor store token actor) [
  | none ↦ none
  | some request ↦
      if request.consumed || expired request now
      then none
      else some
          (insert token (record request { approved = true; approved_by = actor_id actor }) store)
]

module _ (h : Hashing) where
  unfoldable pub matches_call : ApprovalRequest → ToolCall → ℕ → Bool
  matches_call request call now =
      request.tool_id == call.tool_id
      && request.call_fingerprint == call_fingerprint h call.tool_id call.arguments
      && request.approved
      && not request.consumed
      && not (expired request now)

  consume_token :
      String → ToolCall → RequestActor → ℕ → ApprovalStore → Option ApprovalRequest × ApprovalStore
  unfolding request_for_actor matches_call
  consume_token token call actor now store = elim (request_for_actor store token actor) [
    | none ↦ (none, store)
    | some request ↦
        let consumed = record request { consumed = true } in
        if matches_call request call now
        then (some consumed, insert request.token consumed store)
        else (none, store)
  ]

  -- A token that is absent or empty consumes nothing.
  unfoldable pub consume :
      ToolCall → RequestActor → (now : ℕ) → ApprovalStore → Option ApprovalRequest × ApprovalStore
  unfolding consume_token
  consume call actor now store = elim call.approval_token [
    | none ↦ (none, store)
    | some token ↦ if token == "" then (none, store) else consume_token token call actor now store
  ]
