-- ===== src/Security/Rbac.antt =====
-- app/services/security/rbac.py: what each role may do.
use multi_agent_rag_local.Common.{
  String, Bool, false, ◌||◌, Option, none, some, List, [], ◌∷◌, ◌==◌, if◌then◌else◌, contains,
}

abbrev content_author : List String
content_author =
    "query:run" ∷ "upload:create" ∷ "session:read" ∷ "session:create" ∷ "session:delete"
    ∷ "session:lock_strategy" ∷ "message:read" ∷ "message:edit" ∷ "message:delete" ∷ "prompt:read"
    ∷ "prompt:create" ∷ "prompt:edit" ∷ "prompt:delete" ∷ "prompt:manage" ∷ "document:read"
    ∷ "document:manage_own" ∷ "document:delete_own" ∷ "document:reindex_own" ∷ []

-- `_ROLE_ACTIONS`
unfoldable pub role_actions : String → Option (List String)
role_actions role =
    if role == "admin"
    then some ("*" ∷ [])
    else if role == "analyst"
    then some ("session:manage" ∷ "message:manage" ∷ content_author)
    else if role == "viewer"
    then some ("session:update" ∷ content_author)
    else none

-- `can`, for a role whose case is already lowered.
unfoldable pub can : (action role : String) → Bool
unfolding role_actions
can action role = elim (role_actions role) [
  | none ↦ false
  | some allowed ↦ contains "*" allowed || contains action allowed
]
