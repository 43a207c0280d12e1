-- ===== src/Runtime/Breaker/Opening.antt =====
-- resilience.py: when the breaker is open.
use multi_agent_rag_local.Runtime.Breaker.{
  BreakerState, Breakers, admit, failed_state, with_default, Completion, call_with_circuit_breaker,
  closed, cooldown, insert, on_failure, state_of, on_success, threshold, BreakerSettings,
}
use multi_agent_rag_local.OrderedDict.{lookup-insert, lookup-empty, lookup}
use multi_agent_rag_local.Common.{
  suc, ◌+◌, ◌≡◌, refl, ◌∙◌, inl, inr, true, false, none, some, ◌++◌, eq_refl, ltb, leb,
  Option-cases, length, ℕ, ◌<◌, String, List, [], ◌∷◌, arith,
}

module _ (settings : BreakerSettings) where
  -- The atomic steps of calls, as they interleave.
  pub data Event : Type 0 where
    admits : String → (now : ℕ) → Event
    succeeds : String → Event
    fails : String → (now : ℕ) → Event

  unfoldable pub react : Event → Breakers → Breakers
  unfolding admit on_success on_failure
  react (admits name now) breakers = (admit name now breakers).1
  react (succeeds name) breakers = on_success name breakers
  react (fails name now) breakers = on_failure settings name now breakers

  unfoldable pub react_all : List Event → Breakers → Breakers
  unfolding react
  react_all [] breakers = breakers
  react_all (event ∷ rest) breakers = react_all rest (react event breakers)

  threshold_pos : 0 < threshold settings
  threshold_pos = ground arith

  insert-below :
      (name key : String) (s : BreakerState) (breakers : Breakers)
      → s.fails < threshold settings
      → (state_of key breakers).fails < threshold settings
      → (state_of key (insert name s breakers)).fails < threshold settings
  insert-below name key s breakers h k = rw lookup-insert (ground arith)

  failed-below :
      (now : ℕ) (s : BreakerState) → (failed_state settings now s).fails < threshold settings
  unfolding failed_state
  failed-below now s = ground arith

  react-below :
      (event : Event) (key : String) (breakers : Breakers)
      → (state_of key breakers).fails < threshold settings
      → (state_of key (react event breakers)).fails < threshold settings
  unfolding react admit on_success on_failure
  react-below (admits name now) key breakers h = elim (Option-cases (lookup name breakers)) [
    | inl a ↦
        rw (a, react, admit, with_default) (insert-below name key closed breakers threshold_pos h)
    | inr (s, a) ↦ rw (a, react, admit, with_default) h
  ]
  react-below (succeeds name) key breakers h = elim (Option-cases (lookup name breakers)) [
    | inl a ↦ rw (a, react, on_success) h
    | inr (s, a) ↦ rw (a, react, on_success) (insert-below name key closed breakers threshold_pos h)
  ]
  react-below (fails name now) key breakers h = elim (Option-cases (lookup name breakers)) [
    | inl a ↦ rw (a, react, on_failure) h
    | inr (s, a) ↦
        rw (a, react, on_failure) (insert-below name key _ breakers (failed-below now s) h)
  ]

  react_all-below_from :
      (events : List Event) (key : String) (breakers : Breakers)
      → (state_of key breakers).fails < threshold settings
      → (state_of key (react_all events breakers)).fails < threshold settings
  unfolding react_all
  react_all-below_from [] key breakers h = h
  react_all-below_from (event ∷ events) key breakers h =
      react_all-below_from events key _ (react-below event key breakers h)

  -- However calls interleave, the count of failures of a breaker stays below the threshold.
  pub react_all-below :
      (events : List Event) (key : String)
      → (state_of key (react_all events [])).fails < threshold settings
  react_all-below events key = react_all-below_from events key [] (rw lookup-empty threshold_pos)

  abbrev pub failures : String → List ℕ → List Event
  failures name [] = []
  failures name (t ∷ ts) = fails name t ∷ failures name ts

  fail_once :
      (name : String) (t : ℕ) (breakers : Breakers) (s : BreakerState)
      → lookup name breakers ≡ some s
      → lookup name (react (fails name t) breakers) ≡ some (failed_state settings t s)
  unfolding react on_failure
  fail_once name t breakers s a = rw (a, react, on_failure) (rw (lookup-insert, eq_refl name) refl)

  opening :
      (name : String) (ts : List ℕ) (t : ℕ) (breakers : Breakers) (s : BreakerState)
      → lookup name breakers ≡ some s
      → s.fails + suc (length ts) ≡ threshold settings
      → lookup name (react_all (failures name (ts ++ t ∷ [])) breakers)
        ≡ some (record { fails = 0; opened_until = t + cooldown settings })
  unfolding react_all failed_state
  opening name [] t breakers s a h =
      let full : leb (threshold settings) (s.fails + 1) ≡ true = ground arith in
      fail_once name t breakers s a ∙ rw (full, failed_state) refl
  opening name (u ∷ ts) t breakers s a h =
      let room : leb (threshold settings) (s.fails + 1) ≡ false = ground arith in
      opening name ts t _ (record s { fails = s.fails + 1 })
        (fail_once name u breakers s a ∙ rw (room, failed_state) refl) (omega (arith, h))

  -- As many failures in a row as the threshold, the count starting at 0, open the breaker: until the
  -- cooldown after the last one has passed, no call is admitted.
  pub failures-open :
      (name : String) (ts : List ℕ) (t now : ℕ) (breakers : Breakers) (s : BreakerState)
      → lookup name breakers ≡ some s
      → s.fails ≡ 0
      → suc (length ts) ≡ threshold settings
      → now < t + cooldown settings
      → (admit name now (react_all (failures name (ts ++ t ∷ [])) breakers)).0 ≡ false
  unfolding admit
  failures-open name ts t now breakers s a none_yet h soon =
      rw (opening name ts t breakers s a (omega (arith, none_yet, h)), admit) (ground arith)

  -- While the breaker is open, an enabled breaker does not run the function and changes nothing.
  pub call-open :
      {A : Type 0} (name : String) (now : ℕ) (fn : Completion A) (breakers : Breakers)
      (s : BreakerState)
      → settings.circuit_breaker_enabled ≡ true
      → lookup name breakers ≡ some s
      → now < s.opened_until
      → call_with_circuit_breaker settings name now fn breakers ≡ (none, breakers)
  unfolding call_with_circuit_breaker admit
  call-open name now fn breakers s on a soon =
      let open_now : ltb now s.opened_until ≡ true = ground arith in
      rw (on, a, open_now, call_with_circuit_breaker, admit, with_default) refl
