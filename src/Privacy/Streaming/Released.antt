-- ===== src/Privacy/Streaming/Released.antt =====
-- streaming.py: what a reader has been shown.
use mathlib.Core.List.{append-nil}
use multi_agent_rag_local.Privacy.Streaming.{
  safe_boundary, settled_boundary, space_ends, redact_final, StreamingRedactor, release,
  starts_with, TextPasses,
}
use multi_agent_rag_local.Common.{
  ◌+◌, ◌-◌, ◌<◌, ap, ◌⊎◌, inl, inr, arith, Bool-cases, length-take, All, All-append, All-mono, take,
  ℕ, ◌≤◌, ◌≡◌, refl, true, List, [], ◌∷◌, ◌++◌, leb, if◌then◌else◌, length, drop,
}

module _ {ℓ} {C : Type ℓ} (passes : TextPasses C)
    (same_eq : (x y : C) → passes.same x y ≡ true → x ≡ y) where
  pub starts_with-drop :
      (prefix text : List C)
      → starts_with passes prefix text ≡ true
      → prefix ++ drop (length prefix) text ≡ text
  starts_with-drop [] text h = refl
  starts_with-drop (x ∷ xs) [] h = cc
  starts_with-drop (x ∷ xs) (y ∷ ys) h = elim (Bool-cases (passes.same x y)) [
    | inl e ↦ rw (same_eq x y e) (ap (λ (l : List C). y ∷ l) (starts_with-drop xs ys (rw e at h)))
    | inr e ↦ ground (arith, h, e)
  ]

  -- What holds between two calls of `push`: the shown text is the redaction of the text before the
  -- boundary, and the boundary is a margin away from the end.
  pub record Settled (r : StreamingRedactor C) : Type ℓ where
    pub shown :
        r.emitted ≡ (if leb r.released 0 then [] else redact_final passes (take r.released r.raw))
    pub behind : r.released ≤ length r.raw - r.margin

  module _ (boundary : ℕ) (r : StreamingRedactor C) where
    abbrev redacted : List C
    redacted = redact_final passes (take boundary r.raw)

    abbrev next : StreamingRedactor C × List C
    next = (record r { released = boundary; emitted = redacted }, drop (length r.emitted) redacted)

    pub release-cases :
        (release passes boundary r ≡ (r, []))
        ⊎ ((r.released < boundary)
            × (starts_with passes r.emitted redacted ≡ true)
            × (release passes boundary r ≡ next))
    unfolding release
    release-cases = elim (Bool-cases (leb boundary r.released)) [
      | inl e ↦ inl (rw e refl)
      | inr e ↦ elim (Bool-cases (starts_with passes r.emitted redacted)) [
        | inl h ↦ inr (ground arith, h, rw (e, h) refl)
        | inr h ↦ inl (rw (e, h) refl)
      ]
    ]

    pub release-emitted :
        r.emitted ++ (release passes boundary r).1 ≡ (release passes boundary r).0.emitted
    release-emitted = elim release-cases [
      | inl e ↦ rw e (append-nil r.emitted)
      | inr (later, h, e) ↦ rw e (starts_with-drop r.emitted redacted h)
    ]

    pub release-Settled :
        boundary ≤ length r.raw - r.margin → Settled r → Settled (release passes boundary r).0
    release-Settled h s = elim release-cases [
      | inl e ↦ rw e s
      | inr (later, k, e) ↦ rw e (record { shown = ground (arith, later); behind = h })
    ]

    pub release-same :
        ((release passes boundary r).0.raw ≡ r.raw)
        × ((release passes boundary r).0.margin ≡ r.margin)
    release-same = elim release-cases [
      | inl e ↦ rw e (refl, refl)
      | inr (later, k, e) ↦ rw e (refl, refl)
    ]

  space_ends-le :
      (position : ℕ) (text : List C)
      → All (λ end. end ≤ position + length text) (space_ends passes position text)
  unfolding space_ends
  space_ends-le position [] = tt
  space_ends-le position (c ∷ text) =
      let later =
        All-mono (λ end. end ≤ position + 1 + length text)
          (λ end. end ≤ position + length (c ∷ text)) (space_ends passes (position + 1) text)
          (λ end h. omega (arith, h)) (space_ends-le (position + 1) text) in
      elim (Bool-cases (passes.is_space c)) [
        | inl e ↦ rw e (
            All-append (λ end. end ≤ position + length (c ∷ text))
              (space_ends passes (position + 1) text) ((position + 1) ∷ []) later (omega arith, tt))
        | inr e ↦ rw e later
      ]

  settled_boundary-le :
      (r : StreamingRedactor C) (ends : List ℕ) (n : ℕ)
      → All (λ end. end ≤ n) ends
      → r.released ≤ n
      → settled_boundary passes r ends ≤ n
  unfolding settled_boundary
  settled_boundary-le r [] n all h = h
  settled_boundary-le r (end ∷ ends) n (e, all) h =
      ground (arith, settled_boundary-le r ends n all h, h, e)

  pub safe_boundary-le :
      (r : StreamingRedactor C)
      → r.released ≤ length r.raw - r.margin
      → safe_boundary passes r ≤ length r.raw - r.margin
  unfolding safe_boundary
  safe_boundary-le r h =
      let text = take (length r.raw - r.margin) r.raw in
      let ends = space_ends passes 0 text in
      let size = length-take (length r.raw - r.margin) r.raw in
      let all =
        All-mono (λ end. end ≤ 0 + length text) (λ end. end ≤ length r.raw - r.margin) ends
          (λ end k. omega (arith, k, size)) (space_ends-le 0 text) in
      ground (arith, settled_boundary-le r ends (length r.raw - r.margin) all h)
