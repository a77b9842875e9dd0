-- ===== src/Wire/Envelope/RoundTrip.antt =====
-- `parse` reads back what `encode` writes, and asks for more bytes at every cut of it.
use sardp.Base.{
  ℕ, ◌+◌, ◌-◌, ◌/◌, ◌%◌, ◌^◌, ◌≤◌, ◌<◌, ◌≡◌, ap, ◌∙◌, inl, inr, List, [], ◌++◌, append_assoc, some,
  none, arith, length, length-append, take, get_or, get_or-append, drop-append, take-append_length,
  take-append_ge, take-append_le, length-take, ltb, ok, Bool-cases, ltb→lt,
}
use sardp.Wire.Varint.{max_value, encoding, encode-encoding}
use sardp.Wire.Varint.RoundTrip.{decode-encoding, decode-take}
use sardp.Wire.Envelope.{to_le_bytes, from_le_bytes, encode, parse_body, parse}

-- The bytes of one envelope.
abbrev pub frame : ℕ → List ℕ → List ℕ
frame type_raw payload = encoding (length payload) ++ (to_le_bytes type_raw ++ payload)

pub encode-frame :
    (t : ℕ) (payload out : List ℕ)
    → length payload ≤ max_value
    → encode t payload out ≡ some (out ++ frame t payload)
unfolding encode
encode-frame t payload out h =
    rw (encode-encoding (length payload) out h, encode)
      (ap some (
        append_assoc (out ++ encoding (length payload)) (to_le_bytes t) payload
        ∙ append_assoc out (encoding (length payload)) (to_le_bytes t ++ payload)))

length-frame :
    (t : ℕ) (payload : List ℕ)
    → length (frame t payload) ≡ length (encoding (length payload)) + 2 + length payload
length-frame t payload =
    omega (arith, length-append (encoding (length payload)) (to_le_bytes t ++ payload))

u16_bytes : (t : ℕ) → t < 2 ^ 16 → from_le_bytes (t % 256) (t / 256 % 256) ≡ t
u16_bytes t h = omega arith

-- The part of `parse` behind the length, on a buffer that holds the whole envelope.
parse_body_lem :
    (front payload rest : List ℕ) (t max_length : ℕ)
    → t < 2 ^ 16
    → length payload ≤ max_length
    → parse_body
        (front ++ (to_le_bytes t ++ (payload ++ rest)))
        max_length
        (length payload)
        (length front)
      ≡ ok (some (record { type_raw = t; payload = payload }, length front + 2 + length payload))
unfolding parse_body
parse_body_lem front payload rest t max_length ht hm = ground (
  arith,
  u16_bytes t ht,
  len,
  lo,
  get_or-append front tail 1 0,
  drop-append front tail 2,
  rest_all,
)
  where
    tail : List ℕ
    tail = to_le_bytes t ++ (payload ++ rest)

    len : length (front ++ tail) ≡ length front + 2 + length payload + length rest
    len = omega (arith, length-append front tail, length-append payload rest)

    lo : get_or (front ++ tail) (length front) 0 ≡ t % 256
    lo =
        ap (λ (i : ℕ). get_or (front ++ tail) i 0) {y = length front + 0} (omega arith)
        ∙ get_or-append front tail 0 0

    rest_all :
        take (length front + 2 + length payload - (length front + 2)) (payload ++ rest) ≡ payload
    rest_all =
        ap (λ (i : ℕ). take i (payload ++ rest)) {y = length payload} (omega arith)
        ∙ take-append_length payload rest

-- `parse` of an encoded envelope gives it back with the bytes that it takes, whatever follows.
pub parse-frame :
    (t max_length : ℕ) (payload rest : List ℕ)
    → t < 2 ^ 16
    → length payload ≤ max_length
    → length payload ≤ max_value
    → parse (frame t payload ++ rest) max_length
      ≡ ok (some (record { type_raw = t; payload = payload }, length (frame t payload)))
unfolding parse
parse-frame t max_length payload rest ht hm hv =
    ap (λ (b : List ℕ). parse b max_length) regroup
    ∙ rw (decode-encoding (length payload) _ hv, parse, length-frame t payload)
        (parse_body_lem (encoding (length payload)) payload rest t max_length ht hm)
  where
    regroup :
        frame t payload ++ rest ≡ encoding (length payload) ++ (to_le_bytes t ++ (payload ++ rest))
    regroup = append_assoc (encoding (length payload)) (to_le_bytes t ++ payload) rest

-- `parse` of what `encode` wrote: the envelope comes back with the number of its bytes.
pub parse-encode :
    (t max_length : ℕ) (payload rest : List ℕ)
    → t < 2 ^ 16
    → length payload ≤ max_length
    → length payload ≤ max_value
    → (w : List ℕ) × (encode t payload [] ≡ some w)
      × (parse (w ++ rest) max_length
          ≡ ok (some (record { type_raw = t; payload = payload }, length w)))
parse-encode t max_length payload rest ht hm hv =
    (frame t payload, encode-frame t payload [] hv, parse-frame t max_length payload rest ht hm hv)

parse_body_short :
    (buf : List ℕ) (max_length len length_len : ℕ)
    → len ≤ max_length
    → length buf < length_len + 2 + len
    → parse_body buf max_length len length_len ≡ ok none
unfolding parse_body
parse_body_short buf max_length len length_len h s = ground arith

-- Every proper prefix of an envelope asks for more bytes.
pub parse-take :
    (t max_length n : ℕ) (payload : List ℕ)
    → length payload ≤ max_length
    → length payload ≤ max_value
    → n < length (frame t payload)
    → parse (take n (frame t payload)) max_length ≡ ok none
unfolding parse
parse-take t max_length n payload hm hv cut = elim (Bool-cases (ltb n (length head))) [
  | inl early ↦
      let short : take n (frame t payload) ≡ take n head =
        take-append_le n head (to_le_bytes t ++ payload) (ground arith) in
      rw (short, decode-take (length payload) n hv (ltb→lt _ _ early), parse)
  | inr late ↦
      let long : take n (frame t payload) ≡ head ++ take (n - length head) body =
        take-append_ge n head body (ground arith) in
      ap (λ (b : List ℕ). parse b max_length) long
      ∙ rw (decode-encoding (length payload) _ hv, parse)
          (parse_body_short (head ++ take (n - length head) body) max_length (length payload)
            (length head) hm
            (omega (
              arith,
              length-append head (take (n - length head) body),
              length-take (n - length head) body,
              length-frame t payload,
            )))
]
  where
    head : List ℕ
    head = encoding (length payload)

    body : List ℕ
    body = to_le_bytes t ++ payload
