-- ===== src/Security/RateLimiter.antt =====
-- app/services/security/rate_limiter.py: the sliding window. An instant is a number of microseconds.
-- Each operation reads the clock before it takes the lock: a step is the block under the lock, and is
-- given that reading. Steps of several threads may thus come with readings that are out of order; a
-- theorem on a sequence of steps says so where it assumes that the clock does not go back.
use multi_agent_rag_local.OrderedDict.{OrderedDict, erase, insert, lookup}
use multi_agent_rag_local.Common.{
  ℕ, ◌+◌, ◌-◌, ◌*◌, ◌/◌, max, String, Bool, true, false, List, [], ◌∷◌, ◌++◌, ◌==◌, ltb, leb,
  if◌then◌else◌, or_default, length, ℤ, max_zero,
}
pub mod Window
pub mod Admission

pub record SlidingWindowLimiter : Type 0 where
  pub max_attempts : ℕ
  pub window : ℕ

-- `__init__`
unfoldable pub new_limiter : (max_attempts window_seconds : ℤ) → SlidingWindowLimiter
new_limiter max_attempts window_seconds = record {
  max_attempts = max 1 (max_zero max_attempts);
  window = max 1 (max_zero window_seconds) * 1_000_000;
}

-- `_events`: a key that is missing reads as an empty queue.
abbrev pub Events : Type 0
Events = OrderedDict (List ℕ)

abbrev pub queue_of : String → Events → List ℕ
queue_of key events = or_default [] (lookup key events)

pub record LimitInfo : Type 0 where
  pub attempts_used : ℕ
  pub attempts_remaining : ℕ
  pub max_attempts : ℕ
  pub window_seconds : ℕ
  pub retry_after : ℕ

module _ (l : SlidingWindowLimiter) where
  -- `_trim`: `queue[0] < now - window`.
  unfoldable pub trim : List ℕ → ℕ → List ℕ
  trim [] now = []
  trim (t ∷ queue) now =
      let rest = trim queue now in if ltb (t + l.window) now then rest else t ∷ queue

  -- The trimmed queue of a key, and the events with it.
  abbrev pub trimmed : String → ℕ → Events → List ℕ
  trimmed key now events = trim (queue_of key events) now

  unfoldable pub is_limited : String → (now : ℕ) → Events → Bool × Events
  is_limited key now events =
      let queue = trimmed key now events in
      if key == ""
      then (false, events)
      else (leb l.max_attempts (length queue), insert key queue events)

  unfoldable pub retry_after : List ℕ → ℕ → ℕ
  retry_after [] now = 0
  retry_after (oldest ∷ queue) now =
      if leb l.max_attempts (length (oldest ∷ queue))
      then (oldest + l.window - now) / 1_000_000
      else 0

  unfoldable pub get_limit_info : String → (now : ℕ) → Events → LimitInfo × Events
  unfolding retry_after
  get_limit_info key now events =
      let queue = trimmed key now events in
      if key == ""
      then (
        record {
          attempts_used = 0;
          attempts_remaining = l.max_attempts;
          max_attempts = l.max_attempts;
          window_seconds = l.window / 1_000_000;
          retry_after = 0;
        },
        events,
      )
      else (
        record {
          attempts_used = length queue;
          attempts_remaining = l.max_attempts - length queue;
          max_attempts = l.max_attempts;
          window_seconds = l.window / 1_000_000;
          retry_after = retry_after queue now;
        },
        insert key queue events,
      )

  -- `record`
  unfoldable pub record_attempt : String → (now : ℕ) → Events → Events
  record_attempt key now events =
      if key == "" then events else insert key (trimmed key now events ++ now ∷ []) events

  unfoldable pub try_acquire : String → (now : ℕ) → Events → Bool × Events
  try_acquire key now events =
      let queue = trimmed key now events in
      if key == ""
      then (true, events)
      else if leb l.max_attempts (length queue)
      then (false, insert key queue events)
      else (true, insert key (queue ++ now ∷ []) events)

unfoldable pub reset : String → Events → Events
reset key events = if key == "" then events else erase key events
