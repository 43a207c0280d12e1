-- ===== src/Query/Guard/Slots.antt =====
-- guard.py: the permits, the counters and the queries that stand behind them.
-- How many queries hold a permit, run, and are counted as waiting.
use multi_agent_rag_local.Query.Guard.{start, arrive, act}
use multi_agent_rag_local.Query.Guard.{
  act, arrive, Reachable, new_shared, arrived, checked, recorded, blocked, queued, timed_out,
  running, releasing, done, semaphore_error, acquired, refused,
}
use multi_agent_rag_local.Query.Guard.{
  refused, Queries, Shared, acquired, advance, Phase, QueryLoadGuard,
}
use multi_agent_rag_local.Common.{
  ℕ, ◌+◌, ◌≤◌, String, ◌≡◌, refl, Bool, true, false, [], ◌∷◌, ◌++◌, arith,
}

abbrev pub holds : Phase → ℕ
holds (acquired _) = 1
holds running = 1
holds releasing = 1
holds _ = 0

abbrev pub runs : Phase → ℕ
runs running = 1
runs _ = 0

abbrev pub waits : Phase → ℕ
waits queued = 1
waits timed_out = 1
waits (acquired true) = 1
waits _ = 0

abbrev pub broken : Phase → ℕ
broken semaphore_error = 1
broken _ = 0

abbrev pub total : (Phase → ℕ) → Queries → ℕ
total f [] = 0
total f ((user, phase) ∷ rest) = f phase + total f rest

total-append : (f : Phase → ℕ) (xs ys : Queries) → total f (xs ++ ys) ≡ total f xs + total f ys
total-append f [] ys = omega arith
total-append f ((user, phase) ∷ rest) ys = omega (arith, total-append f rest ys)

module _ (guard : QueryLoadGuard) where
  pub record Balanced (holding run wait wrong : ℕ) (s : Shared) : Type 0 where
    pub permits : s.permits + holding ≡ guard.max_concurrent
    pub inflight : s.inflight ≡ run
    pub waiting : s.waiting ≡ wait
    pub queue : s.waiting ≤ guard.max_waiting
    pub nothing_wrong : wrong ≡ 0

  -- One action keeps the balance, whatever the other queries add to it.
  advance-Balanced :
      (now : ℕ) (expired : Bool) (user : String) (phase : Phase) (s : Shared)
      (holding run wait wrong : ℕ)
      → Balanced
          (holds phase + holding)
          (runs phase + run)
          (waits phase + wait)
          (broken phase + wrong)
          s
      → let (phase', s') = advance guard now expired user phase s in
        Balanced
          (holds phase' + holding)
          (runs phase' + run)
          (waits phase' + wait)
          (broken phase' + wrong)
          s'
  unfolding advance
  advance-Balanced now expired user arrived s holding run wait wrong b = record {
    permits = ground (arith, b.permits);
    inflight = ground (arith, b.inflight);
    waiting = ground (arith, b.waiting);
    queue = ground (arith, b.queue, b.waiting);
    nothing_wrong = ground (arith, b.nothing_wrong, b.permits);
  }
  advance-Balanced now expired user checked s holding run wait wrong b = record {
    permits = ground (arith, b.permits);
    inflight = ground (arith, b.inflight);
    waiting = ground (arith, b.waiting);
    queue = ground (arith, b.queue, b.waiting);
    nothing_wrong = ground (arith, b.nothing_wrong, b.permits);
  }
  advance-Balanced now expired user recorded s holding run wait wrong b = record {
    permits = ground (arith, b.permits);
    inflight = ground (arith, b.inflight);
    waiting = ground (arith, b.waiting);
    queue = ground (arith, b.queue, b.waiting);
    nothing_wrong = ground (arith, b.nothing_wrong, b.permits);
  }
  advance-Balanced now expired user blocked s holding run wait wrong b = record {
    permits = ground (arith, b.permits);
    inflight = ground (arith, b.inflight);
    waiting = ground (arith, b.waiting);
    queue = ground (arith, b.queue, b.waiting);
    nothing_wrong = ground (arith, b.nothing_wrong, b.permits);
  }
  advance-Balanced now expired user queued s holding run wait wrong b = record {
    permits = ground (arith, b.permits);
    inflight = ground (arith, b.inflight);
    waiting = ground (arith, b.waiting);
    queue = ground (arith, b.queue, b.waiting);
    nothing_wrong = ground (arith, b.nothing_wrong, b.permits);
  }
  advance-Balanced now expired user (acquired true) s holding run wait wrong b = record {
    permits = ground (arith, b.permits);
    inflight = ground (arith, b.inflight);
    waiting = ground (arith, b.waiting);
    queue = ground (arith, b.queue, b.waiting);
    nothing_wrong = ground (arith, b.nothing_wrong, b.permits);
  }
  advance-Balanced now expired user (acquired false) s holding run wait wrong b = record {
    permits = ground (arith, b.permits);
    inflight = ground (arith, b.inflight);
    waiting = ground (arith, b.waiting);
    queue = ground (arith, b.queue, b.waiting);
    nothing_wrong = ground (arith, b.nothing_wrong, b.permits);
  }
  advance-Balanced now expired user timed_out s holding run wait wrong b = record {
    permits = ground (arith, b.permits);
    inflight = ground (arith, b.inflight);
    waiting = ground (arith, b.waiting);
    queue = ground (arith, b.queue, b.waiting);
    nothing_wrong = ground (arith, b.nothing_wrong, b.permits);
  }
  advance-Balanced now expired user running s holding run wait wrong b = record {
    permits = ground (arith, b.permits);
    inflight = ground (arith, b.inflight);
    waiting = ground (arith, b.waiting);
    queue = ground (arith, b.queue, b.waiting);
    nothing_wrong = ground (arith, b.nothing_wrong, b.permits);
  }
  advance-Balanced now expired user releasing s holding run wait wrong b = record {
    permits = ground (arith, b.permits);
    inflight = ground (arith, b.inflight);
    waiting = ground (arith, b.waiting);
    queue = ground (arith, b.queue, b.waiting);
    nothing_wrong = ground (arith, b.nothing_wrong, b.permits);
  }
  advance-Balanced now expired user done s holding run wait wrong b = b
  advance-Balanced now expired user semaphore_error s holding run wait wrong b = b
  advance-Balanced now expired user (refused r) s holding run wait wrong b = b

  module _ (before after : Queries) (user : String) (phase : Phase) (s : Shared) where
    -- The balance of all queries, with one of them set apart.
    abbrev Apart : Type 0
    Apart =
        Balanced (holds phase + (total holds before + total holds after))
          (runs phase + (total runs before + total runs after))
          (waits phase + (total waits before + total waits after))
          (broken phase + (total broken before + total broken after)) s

    abbrev Together : Type 0
    Together =
        let queries = before ++ (user, phase) ∷ after in
        Balanced (total holds queries) (total runs queries) (total waits queries)
          (total broken queries) s

    parts :
        (f : Phase → ℕ)
        → total f (before ++ (user, phase) ∷ after) ≡ f phase + (total f before + total f after)
    parts f = omega (arith, total-append f before ((user, phase) ∷ after))

    place-Balanced : Together → Apart
    place-Balanced b = record {
      permits = omega (arith, b.permits, parts holds);
      inflight = omega (arith, b.inflight, parts runs);
      waiting = omega (arith, b.waiting, parts waits);
      queue = b.queue;
      nothing_wrong = omega (arith, b.nothing_wrong, parts broken);
    }

    Balanced-place : Apart → Together
    Balanced-place b = record {
      permits = omega (arith, b.permits, parts holds);
      inflight = omega (arith, b.inflight, parts runs);
      waiting = omega (arith, b.waiting, parts waits);
      queue = b.queue;
      nothing_wrong = omega (arith, b.nothing_wrong, parts broken);
    }

  -- The counters and the semaphore agree with the queries in every state that an interleaving reaches.
  pub Reachable-Balanced :
      (queries : Queries) (s : Shared)
      → Reachable guard queries s
      → Balanced
          (total holds queries)
          (total runs queries)
          (total waits queries)
          (total broken queries)
          s
  unfolding new_shared
  Reachable-Balanced _ _ start = record {
    permits = omega arith;
    inflight = refl;
    waiting = refl;
    queue = omega arith;
    nothing_wrong = refl;
  }
  Reachable-Balanced _ _ (arrive queries s user r) =
      let b = Reachable-Balanced queries s r in
      record {
        permits = omega (arith, b.permits);
        inflight = omega (arith, b.inflight);
        waiting = omega (arith, b.waiting);
        queue = b.queue;
        nothing_wrong = omega (arith, b.nothing_wrong);
      }
  Reachable-Balanced _ _ (act before after user phase s now expired r) =
      let (phase', s') = advance guard now expired user phase s in
      Balanced-place before after user phase' s' (
        advance-Balanced now expired user phase s (total holds before + total holds after)
          (total runs before + total runs after) (total waits before + total waits after)
          (total broken before + total broken after)
          (place-Balanced before after user phase s
            (Reachable-Balanced (before ++ (user, phase) ∷ after) s r)))
