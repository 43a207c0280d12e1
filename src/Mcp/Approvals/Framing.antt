-- ===== src/Mcp/Approvals/Framing.antt =====
-- approvals.py, `_call_fingerprint`: the bytes that are hashed, against the call.
use multi_agent_rag_local.Mcp.Approvals.{
  ToolArgument, call_bytes, argument_values, call_values, Hashing, framed, to_bytes,
}
use multi_agent_rag_local.Common.{
  String, map, All, ℕ, ◌/◌, ◌%◌, ◌<◌, ◌≡◌, refl, List, [], ◌∷◌, ◌++◌, arith, length,
}

-- approvals.py, `_call_fingerprint`: the bytes that are hashed identify the tool and its arguments.
abbrev pub Fits : List ℕ → Type 0
Fits bytes = length bytes < 4_294_967_296

append-cancel :
    (xs ys vs ws : List ℕ) → length xs ≡ length ys → xs ++ vs ≡ ys ++ ws → (xs ≡ ys) × (vs ≡ ws)
append-cancel [] [] vs ws h e = (refl, e)
append-cancel [] (y ∷ ys) vs ws h e = absurd (omega (arith, h))
append-cancel (x ∷ xs) [] vs ws h e = absurd (omega (arith, h))
append-cancel (x ∷ xs) (y ∷ ys) vs ws h e =
    let (same, rest) = append-cancel xs ys vs ws (omega (arith, h)) cc in (cc, rest)

to_bytes-injective :
    (m n : ℕ) → m < 4_294_967_296 → n < 4_294_967_296 → to_bytes m ≡ to_bytes n → m ≡ n
unfolding to_bytes
to_bytes-injective m n hm hn e =
    let a : m / 16_777_216 % 256 ≡ n / 16_777_216 % 256 = cc in
    let b : m / 65_536 % 256 ≡ n / 65_536 % 256 = cc in
    let c : m / 256 % 256 ≡ n / 256 % 256 = cc in
    let d : m % 256 ≡ n % 256 = cc in omega (arith, a, b, c, d)

pub framed-injective :
    (xs ys : List (List ℕ)) → All Fits xs → All Fits ys → framed xs ≡ framed ys → xs ≡ ys
unfolding framed to_bytes
framed-injective [] [] hx hy e = refl
framed-injective [] (y ∷ ys) hx hy e = cc
framed-injective (x ∷ xs) [] hx hy e = cc
framed-injective (x ∷ xs) (y ∷ ys) (fx, hx) (fy, hy) e =
    let (sizes, tails) = append-cancel (to_bytes (length x)) (to_bytes (length y)) _ _ refl e in
    let same = to_bytes-injective (length x) (length y) fx fy sizes in
    let (head, rest) = append-cancel x y _ _ same tails in
    let more = framed-injective xs ys hx hy rest in cc

Fits-map :
    (h : Hashing) (xs : List String) → All (λ v. Fits (h.encode v)) xs → All Fits (map h.encode xs)
Fits-map h [] f = tt
Fits-map h (x ∷ xs) f = (f.0, Fits-map h xs f.1)

-- Where no value has 2 ^ 32 bytes or more, two calls that are hashed from the same bytes have the
-- same encoded values, in the same order: no value runs over into its neighbour.
pub call_bytes-values :
    (h : Hashing) (t u : String) (xs ys : List ToolArgument)
    → All (λ v. Fits (h.encode v)) (call_values t xs)
    → All (λ v. Fits (h.encode v)) (call_values u ys)
    → call_bytes h t xs ≡ call_bytes h u ys
    → map h.encode (call_values t xs) ≡ map h.encode (call_values u ys)
unfolding call_bytes
call_bytes-values h t u xs ys fx fy e =
    framed-injective _ _ (Fits-map h (call_values t xs) fx) (Fits-map h (call_values u ys) fy) e

module _ (h : Hashing) (encode-injective : (a b : String) → h.encode a ≡ h.encode b → a ≡ b) where
  argument : String → String → ToolArgument
  argument name value = record { name = name; value = value }

  encode_all-injective : (xs ys : List String) → map h.encode xs ≡ map h.encode ys → xs ≡ ys
  encode_all-injective [] [] e = refl
  encode_all-injective [] (y ∷ ys) e = cc
  encode_all-injective (x ∷ xs) [] e = cc
  encode_all-injective (x ∷ xs) (y ∷ ys) e =
      let first = encode-injective x y cc in let rest = encode_all-injective xs ys cc in cc

  argument_values-injective :
      (xs ys : List ToolArgument) → argument_values xs ≡ argument_values ys → xs ≡ ys
  unfolding argument
  argument_values-injective [] [] e = refl
  argument_values-injective [] (y ∷ ys) e = cc
  argument_values-injective (x ∷ xs) [] e = cc
  argument_values-injective (x ∷ xs) (y ∷ ys) e =
      let name : x.name ≡ y.name = cc in
      let value : x.value ≡ y.value = cc in
      let rest = argument_values-injective xs ys cc in
      let same : argument x.name x.value ≡ argument y.name y.value = cc in cc

  -- Where the encoding is injective and no value has 2 ^ 32 bytes or more, two calls that are hashed
  -- from the same bytes are of the same tool with the same arguments, in the same order.
  pub call_bytes-injective :
      (t u : String) (xs ys : List ToolArgument)
      → All (λ v. Fits (h.encode v)) (call_values t xs)
      → All (λ v. Fits (h.encode v)) (call_values u ys)
      → call_bytes h t xs ≡ call_bytes h u ys
      → (t ≡ u) × (xs ≡ ys)
  unfolding call_bytes
  call_bytes-injective t u xs ys fx fy e =
      let values = call_bytes-values h t u xs ys fx fy e in
      let same = encode_all-injective (call_values t xs) (call_values u ys) values in
      (cc, argument_values-injective xs ys cc)
