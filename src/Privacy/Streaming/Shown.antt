-- ===== src/Privacy/Streaming/Shown.antt =====
-- streaming.py: the whole stream, chunk by chunk and to its end.
use multi_agent_rag_local.Privacy.Streaming.Released.{
  starts_with-drop, release-emitted, release-same, safe_boundary-le, release-Settled, Settled,
}
use multi_agent_rag_local.Privacy.Streaming.{
  base_safety_margin, starts_with, finish, redact_final, new_redactor, release, safe_boundary, push,
  StreamingRedactor, TextPasses,
}
use multi_agent_rag_local.Common.{
  take-all, inl, inr, false, Bool-cases, take, ℕ, ◌+◌, ◌-◌, ◌≤◌, ◌<◌, ap, ◌∙◌, leb, if◌then◌else◌,
  length, take-append_full, ◌≡◌, refl, sym, true, List, [], ◌∷◌, ◌++◌, arith, length-append,
}
use mathlib.Core.List.{append-nil, append_assoc}

-- The chunks are pushed one after the other; the texts that they release, joined.
unfoldable pub push_all {ℓ} :
    {C : Type ℓ} → TextPasses C → List (List C) → StreamingRedactor C → StreamingRedactor C × List C
push_all passes [] r = (r, [])
push_all passes (chunk ∷ chunks) r =
    let (r', shown) = push passes chunk r in
    let (final, rest) = push_all passes chunks r' in (final, shown ++ rest)

abbrev pub joined {ℓ} : {C : Type ℓ} → List (List C) → List C
joined [] = []
joined (chunk ∷ chunks) = chunk ++ joined chunks

module _ {ℓ} {C : Type ℓ} (passes : TextPasses C)
    (same_eq : (x y : C) → passes.same x y ≡ true → x ≡ y) where
  module _ (chunk : List C) (r : StreamingRedactor C) where
    abbrev grown : StreamingRedactor C
    grown = record r { raw = r.raw ++ chunk }

    push-release : push passes chunk r ≡ release passes (safe_boundary passes grown) grown
    unfolding push
    push-release = refl

    grown-Settled : Settled passes same_eq r → Settled passes same_eq grown
    grown-Settled s =
        let longer = length-append r.raw chunk in
        record {
          shown = rw (take-append_full r.released r.raw chunk (omega (arith, s.behind))) s.shown;
          behind = omega (arith, s.behind, longer);
        }

    push-Settled : Settled passes same_eq r → Settled passes same_eq (push passes chunk r).0
    push-Settled s =
        let g = grown-Settled s in
        rw push-release (
          release-Settled passes same_eq (safe_boundary passes grown) grown
            (safe_boundary-le passes same_eq grown g.behind) g)

    push-emitted : r.emitted ++ (push passes chunk r).1 ≡ (push passes chunk r).0.emitted
    push-emitted =
        rw push-release (release-emitted passes same_eq (safe_boundary passes grown) grown)

    push-same :
        ((push passes chunk r).0.raw ≡ r.raw ++ chunk) × ((push passes chunk r).0.margin ≡ r.margin)
    push-same = rw push-release (release-same passes same_eq (safe_boundary passes grown) grown)

  push_all-Settled :
      (chunks : List (List C)) (r : StreamingRedactor C)
      → Settled passes same_eq r
      → let (final, shown) = push_all passes chunks r in
        Settled passes same_eq final
        × (final.emitted ≡ r.emitted ++ shown)
        × (final.raw ≡ r.raw ++ joined chunks)
        × (final.margin ≡ r.margin)
  unfolding push_all
  push_all-Settled [] r s = (s, sym (append-nil r.emitted), sym (append-nil r.raw), refl)
  push_all-Settled (chunk ∷ chunks) r s =
      let (r', shown) = push passes chunk r in
      let (final, rest) = push_all passes chunks r' in
      let (settled, e, w, m) = push_all-Settled chunks r' (push-Settled chunk r s) in
      let (same_raw, same_margin) = push-same chunk r in
      (
        settled,
        e
            ∙ ap (λ (l : List C). l ++ rest) (sym (push-emitted chunk r))
            ∙ append_assoc r.emitted shown rest,
        w
            ∙ ap (λ (l : List C). l ++ joined chunks) same_raw
            ∙ append_assoc r.raw chunk (joined chunks),
        m ∙ same_margin,
      )

  -- The characters that have been shown while an answer is pushed are the redaction of its text
  -- before some boundary, which is at least the margin away from the end of what has been pushed; at
  -- the boundary 0 nothing has been shown. The comparison of characters finds no two of them equal
  -- that are not.
  pub push_all-shown :
      (custom_term_margin : ℕ) (chunks : List (List C))
      → let (r, shown) = push_all passes chunks (new_redactor custom_term_margin) in
        (shown ≡ (
          if leb r.released 0 then [] else redact_final passes (take r.released (joined chunks))))
        × (r.released ≤ length (joined chunks) - (base_safety_margin + custom_term_margin))
  unfolding new_redactor
  push_all-shown custom_term_margin chunks =
      let (s, e, w, m) =
        push_all-Settled chunks (new_redactor custom_term_margin)
          (record { shown = refl; behind = omega arith }) in
      (rw (e, w) at s.shown, rw (w, m) at s.behind)

  finish-appended :
      (r : StreamingRedactor C)
      → r.released < length r.raw
      → let redacted = redact_final passes r.raw in
        r.emitted ++ (finish passes r).1
        ≡ (if starts_with passes r.emitted redacted then redacted else r.emitted)
  unfolding finish release
  finish-appended r h =
      elim (Bool-cases (starts_with passes r.emitted (redact_final passes r.raw))) [
        | inl e ↦
            let later : leb (length r.raw) r.released ≡ false = ground (arith, h) in
            rw (later, take-all r.raw, e)
              (starts_with-drop passes same_eq r.emitted (redact_final passes r.raw) e)
        | inr e ↦
            let later : leb (length r.raw) r.released ≡ false = ground (arith, h) in
            rw (later, take-all r.raw, e) (append-nil r.emitted)
      ]

  -- When a text that is not empty ends, the reader has been shown its redaction, if that starts with
  -- what was shown before, and otherwise nothing more. The comparison of characters finds no two of
  -- them equal that are not.
  pub finish-shown :
      (custom_term_margin : ℕ) (chunks : List (List C))
      → 0 < length (joined chunks)
      → let (r, shown) = push_all passes chunks (new_redactor custom_term_margin) in
        let redacted = redact_final passes (joined chunks) in
        shown ++ (finish passes r).1
        ≡ (if starts_with passes shown redacted then redacted else shown)
  unfolding new_redactor
  finish-shown custom_term_margin chunks h =
      let (r, shown) = push_all passes chunks (new_redactor custom_term_margin) in
      let (s, e, w, m) =
        push_all-Settled chunks (new_redactor custom_term_margin)
          (record { shown = refl; behind = omega arith }) in
      let size : length r.raw ≡ length (joined chunks) = ap (λ (l : List C). length l) w in
      let ending = finish-appended r (omega (arith, h, s.behind, size, m)) in rw (e, w) at ending
