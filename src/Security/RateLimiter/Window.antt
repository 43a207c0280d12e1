-- ===== src/Security/RateLimiter/Window.antt =====
-- rate_limiter.py, `_trim`: queues in the order of time.
use multi_agent_rag_local.Security.RateLimiter.{trim, SlidingWindowLimiter}
use multi_agent_rag_local.Common.{
  ℕ, ◌+◌, ◌≤◌, ◌≡◌, refl, sym, inl, inr, Bool, true, false, List, [], ◌∷◌, ◌++◌, arith, ltb, leb,
  Bool-cases, filter,
}

-- rate_limiter.py, `_trim`: on a queue in the order of time it keeps exactly the window.
module _ (l : SlidingWindowLimiter) where
  -- Not before the cutoff `now - window`.
  abbrev pub within : ℕ → ℕ → Bool
  within now t = leb now (t + l.window)

  -- In the order of time, and up to `last`.
  abbrev pub Sorted : List ℕ → ℕ → Type 0
  Sorted [] last = Unit
  Sorted (t ∷ []) last = t ≤ last
  Sorted (t ∷ u ∷ queue) last = (t ≤ u) × Sorted (u ∷ queue) last

  pub Sorted-tail :
      (t : ℕ) (queue : List ℕ) (last : ℕ) → Sorted (t ∷ queue) last → Sorted queue last
  Sorted-tail t [] last h = tt
  Sorted-tail t (u ∷ queue) last h = h.1

  pub Sorted-later :
      (queue : List ℕ) (last now : ℕ) → last ≤ now → Sorted queue last → Sorted queue now
  Sorted-later [] last now le h = tt
  Sorted-later (t ∷ []) last now le h = omega (arith, h, le)
  Sorted-later (t ∷ u ∷ queue) last now le h = (h.0, Sorted-later (u ∷ queue) last now le h.1)

  pub Sorted-append :
      (queue : List ℕ) (last now : ℕ)
      → last ≤ now
      → Sorted queue last
      → Sorted (queue ++ now ∷ []) now
  Sorted-append [] last now le h = omega arith
  Sorted-append (t ∷ []) last now le h = (omega (arith, h, le), omega arith)
  Sorted-append (t ∷ u ∷ queue) last now le h = (h.0, Sorted-append (u ∷ queue) last now le h.1)

  -- If the oldest is within the window, all are.
  filter-all :
      (t : ℕ) (queue : List ℕ) (last now : ℕ)
      → within now t ≡ true
      → Sorted (t ∷ queue) last
      → filter (within now) (t ∷ queue) ≡ t ∷ queue
  filter-all t [] last now e h = rw e refl
  filter-all t (u ∷ queue) last now e h =
      let rest = filter-all u queue last now (ground (arith, h.0)) h.1 in rw (e, rest) refl

  -- On a queue in the order of time, `_trim` keeps exactly the attempts within the window.
  pub trim-filter :
      (queue : List ℕ) (last now : ℕ)
      → Sorted queue last
      → trim l queue now ≡ filter (within now) queue
  unfolding trim
  trim-filter [] last now h = refl
  trim-filter (t ∷ queue) last now h = elim (Bool-cases (ltb (t + l.window) now)) [
    | inl old ↦
        let out : within now t ≡ false = ground arith in
        rw (old, trim) (rw out (trim-filter queue last now (Sorted-tail t queue last h)))
    | inr young ↦
        let kept : within now t ≡ true = ground arith in
        rw (young, trim) (sym (filter-all t queue last now kept h))
  ]

  -- The window only moves on: what is within it later is within it now.
  pub filter-later :
      (xs : List ℕ) (now later : ℕ)
      → now ≤ later
      → filter (within later) (filter (within now) xs) ≡ filter (within later) xs
  filter-later [] now later le = refl
  filter-later (t ∷ xs) now later le = ground (arith, filter-later xs now later le)

  pub filter-now :
      (xs : List ℕ) (now : ℕ)
      → filter (within now) (xs ++ now ∷ []) ≡ filter (within now) xs ++ now ∷ []
  filter-now [] now = ground arith
  filter-now (t ∷ xs) now = ground (arith, filter-now xs now)
