-- ===== src/Security/Quota.antt =====
-- app/services/security/quota.py: two limiters of a minute, and a key for each user or business unit. The
-- settings are read at each call, and `str.strip` and `str.lower` are parameters.
use multi_agent_rag_local.Common.{◌&&◌, leb_ℤ, ℕ, String, Bool, true, ◌==◌, if◌then◌else◌, ℤ, pos}
use multi_agent_rag_local.Security.RateLimiter.{
  SlidingWindowLimiter, Events, new_limiter, try_acquire,
}
use Prim.Native.String.{◌++◌ as append}
pub mod Enforced

pub record QuotaGuard : Type 0 where
  pub query_limiter : SlidingWindowLimiter
  pub web_limiter : SlidingWindowLimiter
  pub mode : String

pub record QuotaUser : Type 0 where
  pub user_id : String
  pub business_unit : String

-- The attempts that each limiter holds.
pub record QuotaState : Type 0 where
  pub query_events : Events
  pub web_events : Events

-- `x or d`, for a number of the settings
abbrev pub or_number : ℤ → ℤ → ℤ
or_number n d = if leb_ℤ n (pos 0) && leb_ℤ (pos 0) n then d else n

module _ (strip lower : String → String) where
  -- `__init__`
  unfoldable pub new_quota : (query_max web_max : ℤ) → (mode : String) → QuotaGuard
  new_quota query_max web_max mode = record {
    query_limiter = new_limiter (or_number query_max (pos 120)) (pos 60);
    web_limiter = new_limiter (or_number web_max (pos 30)) (pos 60);
    mode = lower (strip (if mode == "" then "user" else mode));
  }

  unfoldable pub scope_key : QuotaGuard → QuotaUser → String
  scope_key guard user =
      let unit = lower (strip user.business_unit) in
      let own = append "user:" (strip user.user_id) in
      if guard.mode == "business_unit" then (if unit == "" then own else append "bu:" unit) else own

  -- Whether the query is let through: `false` is `QuotaExceededError`.
  unfoldable pub enforce_query_quota :
      QuotaGuard → (enabled : Bool) → QuotaUser → (now : ℕ) → QuotaState → Bool × QuotaState
  unfolding scope_key
  enforce_query_quota guard enabled user now s =
      let (admitted, events) =
        try_acquire guard.query_limiter (scope_key guard user) now s.query_events in
      if enabled then (admitted, record s { query_events = events }) else (true, s)

  unfoldable pub enforce_web_quota :
      QuotaGuard → (enabled : Bool) → QuotaUser → (now : ℕ) → QuotaState → Bool × QuotaState
  unfolding scope_key
  enforce_web_quota guard enabled user now s =
      let (admitted, events) =
        try_acquire guard.web_limiter (append "web:" (scope_key guard user)) now s.web_events in
      if enabled then (admitted, record s { web_events = events }) else (true, s)
