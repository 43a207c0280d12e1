-- ===== src/Security/Quota/Enforced.antt =====
-- quota.py: how many queries a scope is let through.
use multi_agent_rag_local.Security.Quota.{
  QuotaState, scope_key, QuotaUser, enforce_query_quota, QuotaGuard,
}
use multi_agent_rag_local.Common.{
  ℕ, String, true, ◌&&◌, List, [], ◌∷◌, ◌++◌, map, ◌==◌, if◌then◌else◌,
}

module _ (strip lower : String → String) (guard : QuotaGuard) (key : String) where
  -- The queries of all users are enforced one after the other; the instants at which those of a scope
  -- are let through are noted.
  unfoldable pub enforce_all : List (QuotaUser × ℕ) → QuotaState × List ℕ → QuotaState × List ℕ
  enforce_all [] s = s
  enforce_all ((user, now) ∷ rest) (s, log) =
      let (admitted, s') = enforce_query_quota strip lower guard true user now s in
      enforce_all rest
        (s', if (scope_key strip lower guard user == key) && admitted then log ++ now ∷ [] else log)

  abbrev pub keyed : List (QuotaUser × ℕ) → List (String × ℕ)
  keyed = map (λ (op : QuotaUser × ℕ). (scope_key strip lower guard op.0, op.1))
