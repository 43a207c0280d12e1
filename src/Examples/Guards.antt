-- ===== src/Examples/Guards.antt =====
-- The limiter, the cache and the breaker on concrete inputs.
use multi_agent_rag_local.Security.Quota.{new_quota, QuotaGuard, QuotaUser}
use multi_agent_rag_local.Runtime.Breaker.Opening.{failures, failures-open, react_all}
use multi_agent_rag_local.Runtime.Cache.Served.{get-set, set-bounded}
use multi_agent_rag_local.Runtime.Breaker.{BreakerSettings, Breakers, admit}
use multi_agent_rag_local.Runtime.Cache.{Readings, TtlCache, get, set}
use multi_agent_rag_local.Security.RateLimiter.Window.{within}
use multi_agent_rag_local.Security.RateLimiter.Admission.{
  attempt, attempts-admitted, try_acquire-reopens, attempts,
}
use multi_agent_rag_local.Security.RateLimiter.{Events, SlidingWindowLimiter, trim, try_acquire}
use multi_agent_rag_local.OrderedDict.{lookup, insert}
use multi_agent_rag_local.Common.{
  pos, ℕ, ◌≤◌, String, arith, length, filter, ◌≡◌, refl, true, false, some, List, [], ◌∷◌,
}

-- Two attempts in ten seconds.
abbrev limiter : SlidingWindowLimiter
limiter = record { max_attempts = 2; window = 10_000_000 }

abbrev traffic : List (String × ℕ)
traffic = ("ann", 1) ∷ ("bob", 2) ∷ ("ann", 3) ∷ ("ann", 4) ∷ []

attempts_test : (attempts limiter "ann" traffic ([], [])).1 ≡ 1 ∷ 3 ∷ []
unfolding attempts attempt try_acquire trim insert lookup
attempts_test = refl

attempts-admitted_example :
    length (filter (within limiter 4) (attempts limiter "ann" traffic ([], [])).1) ≤ 2
attempts-admitted_example =
    attempts-admitted limiter "ann" traffic 4 refl
      (omega arith, (omega arith, (omega arith, (omega arith, omega arith))))

abbrev full : Events
full = ("ann", 1 ∷ 3 ∷ []) ∷ []

try_acquire-reopens_example : (try_acquire limiter "ann" 10_000_004 full).0 ≡ true
unfolding lookup
try_acquire-reopens_example =
    try_acquire-reopens limiter "ann" 3 10_000_004 full (omega arith) (omega arith, omega arith)
      (omega arith)

-- One entry, for a second.
abbrev cache : TtlCache ℕ
cache = record {
  ttl = 1_000_000;
  max_items = 1;
  store = ("old", (1_000_000, 7)) ∷ [];
  last_eviction = 0;
  eviction_interval = 1_000_000;
}

abbrev reading : ℕ → Readings
reading t = record { now = t; asked = t; evicting = t }

get-set_example : (get "new" (reading 9) (set "new" 8 (reading 5) cache)).0 ≡ some 8
get-set_example =
    get-set "new" 8 (reading 5) (reading 9) cache (omega arith) (omega arith) (omega arith)

set-bounded_example : length (set "new" 8 (reading 5) cache).store ≤ 1
set-bounded_example = set-bounded "new" 8 (reading 5) cache

-- Two failures open the breaker for a second.
abbrev settings : BreakerSettings
settings = record {
  circuit_breaker_enabled = true;
  circuit_breaker_fail_threshold = 2;
  circuit_breaker_cooldown_seconds = 1;
}

abbrev breakers : Breakers
breakers = ("llm", record { fails = 0; opened_until = 0 }) ∷ []

failures-open_example :
    (admit "llm" 1_000_001 (react_all settings (failures settings "llm" (1 ∷ 2 ∷ [])) breakers)).0
    ≡ false
unfolding lookup
failures-open_example =
    failures-open settings "llm" (1 ∷ []) 2 1_000_001 breakers
      (record { fails = 0; opened_until = 0 }) refl refl refl (omega arith)

abbrev toy_quota : QuotaGuard
toy_quota = new_quota (λ text. text) (λ text. text) (pos 1) (pos 1) "user"

abbrev quota_user : QuotaUser
quota_user = record { user_id = "u"; business_unit = "" }
