-- ===== src/Security/RateLimiter/Admission.antt =====
-- rate_limiter.py: how many attempts are admitted, over the attempts of all keys together.
use multi_agent_rag_local.OrderedDict.{lookup-empty, lookup-insert}
use multi_agent_rag_local.Security.RateLimiter.Window.{
  Sorted-append, filter-now, Sorted-tail, trim-filter, filter-later, Sorted, Sorted-later, within,
}
use multi_agent_rag_local.Security.RateLimiter.{
  get_limit_info, insert, Events, is_limited, queue_of, trim, trimmed, try_acquire,
  SlidingWindowLimiter,
}
use multi_agent_rag_local.Common.{
  refl, sym, eq_iff, eq_refl, leb, length-append, ℕ, ◌+◌, ◌≤◌, ◌<◌, String, ◌≡◌, ap, ◌∙◌, ◌↔◌, inl,
  inr, true, false, ◌&&◌, List, [], ◌∷◌, ◌++◌, arith, ◌==◌, ltb, if◌then◌else◌, Bool-cases, length,
  filter,
}

module _ (l : SlidingWindowLimiter) (key : String) where
  -- The events, and the instants at which the key was admitted, in order.
  abbrev pub Log : Type 0
  Log = Events × List ℕ

  unfoldable pub attempt : String × ℕ → Log → Log
  attempt (k, now) (events, log) =
      let (admitted, events') = try_acquire l k now events in
      (events', if (k == key) && admitted then log ++ now ∷ [] else log)

  unfoldable pub attempts : List (String × ℕ) → Log → Log
  unfolding attempt
  attempts [] s = s
  attempts (a ∷ rest) s = attempts rest (attempt a s)

  -- The attempts of all keys are in the order of time, between two instants.
  abbrev pub Ordered : ℕ → List (String × ℕ) → ℕ → Type 0
  Ordered last [] end = last ≤ end
  Ordered last ((k, t) ∷ rest) end = (last ≤ t) × Ordered t rest end

  record Bounded (last : ℕ) (s : Log) : Type 0 where
    touched : ℕ
    past : touched ≤ last
    window : queue_of key s.0 ≡ filter (within l touched) s.1
    sorted : Sorted l (queue_of key s.0) last
    bounded : length (queue_of key s.0) ≤ l.max_attempts

  leb-false : (m n : ℕ) → leb m n ≡ false → n < m
  leb-false m n h = ground arith

  queue_of-insert :
      (k : String) (q : List ℕ) (events : Events)
      → queue_of key (insert k q events) ≡ (if k == key then q else queue_of key events)
  queue_of-insert k q events = rw lookup-insert (ground arith)

  -- What is within a later window is what the trimmed queue holds.
  trimmed-log :
      (last now : ℕ) (s : Log)
      → last ≤ now
      → Bounded last s
      → trimmed l key now s.0 ≡ filter (within l now) s.1
  trimmed-log last now s le b =
      trim-filter l (queue_of key s.0) last now b.sorted
      ∙ ap (filter (within l now)) b.window
      ∙ filter-later l s.1 b.touched now (omega (arith, b.past))

  Sorted-trim :
      (queue : List ℕ) (last now : ℕ) → Sorted l queue last → Sorted l (trim l queue now) last
  unfolding trim
  Sorted-trim [] last now h = tt
  Sorted-trim (t ∷ queue) last now h = elim (Bool-cases (ltb (t + l.window) now)) [
    | inl old ↦ rw (old, trim) (Sorted-trim queue last now (Sorted-tail l t queue last h))
    | inr young ↦ rw (young, trim) h
  ]

  length-trim : (queue : List ℕ) (now : ℕ) → length (trim l queue now) ≤ length queue
  unfolding trim
  length-trim [] now = omega arith
  length-trim (t ∷ queue) now = ground (arith, length-trim queue now)

  carry :
      (last now : ℕ) (s s' : Log)
      → last ≤ now
      → queue_of key s'.0 ≡ queue_of key s.0
      → s'.1 ≡ s.1
      → Bounded last s
      → Bounded now s'
  carry last now s s' le same_queue same_log b = record {
    touched = b.touched;
    past = omega (arith, b.past, le);
    window = rw (same_queue, same_log) b.window;
    sorted = rw same_queue (Sorted-later l (queue_of key s.0) last now le b.sorted);
    bounded = rw same_queue b.bounded;
  }

  try_acquire-other :
      (k : String) (now : ℕ) (events : Events)
      → (k == key) ≡ false
      → queue_of key (try_acquire l k now events).1 ≡ queue_of key events
  unfolding try_acquire
  try_acquire-other k now events other = ground (
    arith,
    queue_of-insert k (trimmed l k now events) events,
    queue_of-insert k (trimmed l k now events ++ now ∷ []) events,
  )

  touch :
      (now : ℕ) (q log : List ℕ) (events : Events)
      → q ≡ filter (within l now) log
      → Sorted l q now
      → length q ≤ l.max_attempts
      → Bounded now (insert key q events, log)
  touch now q log events same sorted bounded =
      let e : queue_of key (insert key q events) ≡ q = rw (queue_of-insert, eq_refl key) refl in
      record {
        touched = now;
        past = omega arith;
        window = rw e same;
        sorted = rw e sorted;
        bounded = rw e bounded;
      }

  attempt-own :
      (last now : ℕ) (s : Log)
      → (key == "") ≡ false
      → last ≤ now
      → Bounded last s
      → Bounded now (attempt (key, now) s)
  unfolding attempt try_acquire
  attempt-own last now s named le b =
      let q = trimmed l key now s.0 in
      let same = trimmed-log last now s le b in
      let sorted = Sorted-trim (queue_of key s.0) last now b.sorted in
      elim (Bool-cases (leb l.max_attempts (length q))) [
        | inl full ↦
            rw (named, full, eq_refl key, attempt, try_acquire)
              (touch now q s.1 s.0 same (Sorted-later l q last now le sorted)
                (omega (arith, length-trim (queue_of key s.0) now, b.bounded)))
        | inr room ↦
            rw (named, room, eq_refl key, attempt, try_acquire)
              (touch now (q ++ now ∷ []) (s.1 ++ now ∷ []) s.0
                (ap (λ xs. xs ++ now ∷ []) same ∙ sym (filter-now l s.1 now))
                (Sorted-append l q last now le sorted)
                (omega
                  (arith, length-append q (now ∷ []), leb-false l.max_attempts (length q) room)))
      ]

  attempt-Bounded :
      (k : String) (last now : ℕ) (s : Log)
      → (key == "") ≡ false
      → last ≤ now
      → Bounded last s
      → Bounded now (attempt (k, now) s)
  unfolding attempt
  attempt-Bounded k last now s named le b = elim (Bool-cases (k == key)) [
    | inl same ↦ rw ((eq_iff k key).0 same) (attempt-own last now s named le b)
    | inr other ↦ carry last now s _ le (try_acquire-other k now s.0 other) (rw other refl) b
  ]

  attempts-Bounded :
      (rest : List (String × ℕ)) (last end : ℕ) (s : Log)
      → (key == "") ≡ false
      → Ordered last rest end
      → Bounded last s
      → Bounded end (attempts rest s)
  unfolding attempts
  attempts-Bounded [] last end s named h b = record {
    touched = b.touched;
    past = omega (arith, b.past, h);
    window = b.window;
    sorted = Sorted-later l (queue_of key s.0) last end h b.sorted;
    bounded = b.bounded;
  }
  attempts-Bounded ((k, t) ∷ rest) last end s named h b =
      attempts-Bounded rest t end _ named h.1 (attempt-Bounded k last t s named h.0 b)

  -- However the attempts of all keys interleave, as long as the clock does not go back: at the end,
  -- at most `max_attempts` of the instants at which a named key was admitted are within the window.
  pub attempts-admitted :
      (rest : List (String × ℕ)) (end : ℕ)
      → (key == "") ≡ false
      → Ordered 0 rest end
      → length (filter (within l end) (attempts rest ([], [])).1) ≤ l.max_attempts
  attempts-admitted rest end named h =
      let b : Bounded end (attempts rest ([], [])) =
        attempts-Bounded rest 0 end ([], []) named h
          (record {
            touched = 0;
            past = omega arith;
            window = rw lookup-empty refl;
            sorted = rw lookup-empty tt;
            bounded = rw lookup-empty (omega arith);
          }) in
      let s = attempts rest ([], []) in
      omega (
        arith,
        ap length (trimmed-log end end s (omega arith) b),
        length-trim (queue_of key s.0) end,
        b.bounded,
      )

module _ (l : SlidingWindowLimiter) where
  -- Where the limit is above 0, a key is limited exactly when the details say that no attempt remains.
  pub get_limit_info-is_limited :
      (key : String) (now : ℕ) (events : Events)
      → 0 < l.max_attempts
      → ((is_limited l key now events).0 ≡ true)
        ↔ ((get_limit_info l key now events).0.attempts_remaining ≡ 0)
  unfolding is_limited get_limit_info
  get_limit_info-is_limited key now events h = ((λ e. ground arith), (λ e. ground arith))

  head-le : (t : ℕ) (queue : List ℕ) (last : ℕ) → Sorted l (t ∷ queue) last → t ≤ last
  head-le t [] last h = h
  head-le t (u ∷ queue) last h = omega (arith, h.0, head-le u queue last h.1)

  trim-none :
      (queue : List ℕ) (last now : ℕ)
      → Sorted l queue last
      → last + l.window < now
      → trim l queue now ≡ []
  unfolding trim
  trim-none [] last now h late = refl
  trim-none (t ∷ queue) last now h late =
      ground (
        arith,
        head-le t queue last h,
        trim-none queue last now (Sorted-tail l t queue last h) late,
      )

  -- Whatever was recorded up to an instant, in the order of time, an attempt more than a window later
  -- is admitted, where the limit is above 0.
  pub try_acquire-reopens :
      (key : String) (last now : ℕ) (events : Events)
      → 0 < l.max_attempts
      → Sorted l (queue_of key events) last
      → last + l.window < now
      → (try_acquire l key now events).0 ≡ true
  unfolding try_acquire
  try_acquire-reopens key last now events h sorted late =
      let e = trim-none (queue_of key events) last now sorted late in ground arith
