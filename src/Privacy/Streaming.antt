-- ===== src/Privacy/Streaming.antt =====
-- app/privacy/streaming.py: an answer is redacted while it is written. A text is a list of characters.
-- The two passes of `redact_final` substitute regular expressions of Python's `re`, and `\s` is one
-- more: they are parameters, as is the comparison of characters.
use multi_agent_rag_local.Common.{
  take, ℕ, ◌+◌, ◌-◌, Bool, true, false, not, ◌&&◌, List, [], ◌∷◌, ◌++◌, leb, if◌then◌else◌, length,
  drop,
}
pub mod Released
pub mod Shown

pub record TextPasses {ℓ} (C : Type ℓ) : Type ℓ where
  pub sanitize_answer : List C → List C
  pub inspect_text : List C → List C
  pub is_space : C → Bool
  pub same : C → C → Bool

pub record StreamingRedactor {ℓ} (C : Type ℓ) : Type ℓ where
  pub margin : ℕ
  pub raw : List C
  pub released : ℕ
  pub emitted : List C

-- The dataclass with its defaults; the margin is `BASE_SAFETY_MARGIN` and the longest custom term.
abbrev pub base_safety_margin : ℕ
base_safety_margin = 64

unfoldable pub new_redactor {ℓ} : {C : Type ℓ} → (custom_term_margin : ℕ) → StreamingRedactor C
new_redactor custom_term_margin = record {
  margin = base_safety_margin + custom_term_margin;
  raw = [];
  released = 0;
  emitted = [];
}

module _ {ℓ} {C : Type ℓ} (passes : TextPasses C) where
  unfoldable pub redact_final : List C → List C
  redact_final text = passes.inspect_text (passes.sanitize_answer text)

  -- `str.startswith`
  abbrev pub starts_with : (prefix text : List C) → Bool
  starts_with [] text = true
  starts_with (x ∷ xs) [] = false
  starts_with (x ∷ xs) (y ∷ ys) = passes.same x y && starts_with xs ys

  -- `_release`
  unfoldable pub release : ℕ → StreamingRedactor C → StreamingRedactor C × List C
  release boundary r =
      let redacted = redact_final (take boundary r.raw) in
      if leb boundary r.released
      then (r, [])
      else if not (starts_with r.emitted redacted)
      then (r, [])
      else (record r { released = boundary; emitted = redacted }, drop (length r.emitted) redacted)

  -- The ends of the matches of `\s` in a text that starts at a position, the last first.
  unfoldable pub space_ends : ℕ → List C → List ℕ
  space_ends position [] = []
  space_ends position (c ∷ text) =
      let later = space_ends (position + 1) text in
      if passes.is_space c then later ++ (position + 1) ∷ [] else later

  -- The loop of `_safe_boundary` over them.
  unfoldable pub settled_boundary : StreamingRedactor C → List ℕ → ℕ
  settled_boundary r [] = r.released
  settled_boundary r (boundary ∷ rest) =
      let later = settled_boundary r rest in
      let settled = redact_final (take boundary r.raw) in
      if leb boundary r.released
      then r.released
      else if starts_with settled (redact_final (take (boundary + r.margin) r.raw))
      then boundary
      else later

  -- `_safe_boundary`
  unfoldable pub safe_boundary : StreamingRedactor C → ℕ
  unfolding settled_boundary space_ends
  safe_boundary r =
      if leb (length r.raw) r.margin
      then 0
      else settled_boundary r (space_ends 0 (take (length r.raw - r.margin) r.raw))

  unfoldable pub push : List C → StreamingRedactor C → StreamingRedactor C × List C
  unfolding release safe_boundary
  push chunk r =
      let grown = record r { raw = r.raw ++ chunk } in release (safe_boundary grown) grown

  unfoldable pub finish : StreamingRedactor C → StreamingRedactor C × List C
  unfolding release
  finish r = release (length r.raw) r
