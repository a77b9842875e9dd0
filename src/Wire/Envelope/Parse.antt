-- ===== src/Wire/Envelope/Parse.antt =====
-- What `parse` answers on any buffer: bounds, limits, and stability under more input.
use sardp.Base.{
  ℕ, ◌+◌, ◌-◌, ◌^◌, ◌≤◌, ◌<◌, ◌≡◌, ap, sym, ◌∙◌, inl, inr, List, ◌++◌, some, none, arith, length,
  length-append, take, drop, get_or, get_or-append_lt, get_or-All, drop-append_le, take-append_le,
  length-take, length-drop, ok, err, All,
}
use sardp.Wire.Varint.{max_value, encoding, encode-encoding, incomplete, IsByte}
use sardp.Wire.Varint
use sardp.Wire.Varint.Decode.{decode_cases, decode_bounds, decode-append_ok}
use sardp.Wire.Varint.RoundTrip.{decode-encoding}
use sardp.Wire.Envelope.{
  Envelope, EnvelopeError, length_exceeds_limit, from_le_bytes, parse_body, parse,
}

-- A declared length over the limit is refused as soon as the length itself is there.
parse_oversized :
    (t len max_length : ℕ) (more : List ℕ)
    → len ≤ max_value
    → max_length < len
    → parse (encoding len ++ more) max_length ≡ err (length_exceeds_limit len max_length)
unfolding parse parse_body
parse_oversized t len max_length more hv over =
    rw (decode-encoding len more hv, parse) (ground arith)

-- The two ways `parse` goes on: for want of a length it asks for more, else `parse_body` decides.
parse_ok :
    (buf : List ℕ) (max_length len k : ℕ)
    → Varint.decode buf ≡ ok (len, k)
    → parse buf max_length ≡ parse_body buf max_length len k
unfolding parse
parse_ok buf max_length len k e = rw (e, parse)

parse_incomplete :
    (buf : List ℕ) (max_length : ℕ)
    → Varint.decode buf ≡ err incomplete
    → parse buf max_length ≡ ok none
unfolding parse
parse_incomplete buf max_length e = rw (e, parse)

-- A successful answer of `parse_body`, read back.
parse_body_inv :
    (buf : List ℕ) (max_length len k n : ℕ) (e : Envelope)
    → parse_body buf max_length len k ≡ ok (some (e, n))
    → (len ≤ max_length)
      × (n ≡ k + 2 + len)
      × (n ≤ length buf)
      × (e.type_raw ≡ from_le_bytes (get_or buf k 0) (get_or buf (k + 1) 0))
      × (e.payload ≡ take (k + 2 + len - (k + 2)) (drop (k + 2) buf))
unfolding parse_body
parse_body_inv buf max_length len k n e h = ground arith

-- An accepted envelope respects the limit and lies within the buffer; its type is 16 bits, and
-- it takes the length's bytes, two for the type and the payload.
parse_bounds :
    (buf : List ℕ) (max_length n : ℕ) (e : Envelope)
    → All IsByte buf
    → parse buf max_length ≡ ok (some (e, n))
    → (length e.payload ≤ max_length)
      × (e.type_raw < 2 ^ 16)
      × (n ≤ length buf)
      × (3 + length e.payload ≤ n)
      × (n ≤ 10 + length e.payload)
parse_bounds buf max_length n e bytes h = elim (decode_cases buf) [
  | inl short ↦ cc (parse_incomplete buf max_length short)
  | inr (len, k, d) ↦
      let (limit, size, fits, t, p) =
        parse_body_inv buf max_length len k n e (sym (parse_ok buf max_length len k d) ∙ h) in
      let (top, low, high, inside) = decode_bounds buf len k bytes d in
      let lo = get_or-All IsByte buf k 0 (omega arith) bytes in
      let hi = get_or-All IsByte buf (k + 1) 0 (omega arith) bytes in
      let size_p : length e.payload ≡ len =
        ap length p
        ∙ omega (
          arith,
          length-take (k + 2 + len - (k + 2)) (drop (k + 2) buf),
          length-drop (k + 2) buf,
        ) in
      omega arith
]

parse_body-append_err :
    (buf more : List ℕ) (max_length len k : ℕ) (x : EnvelopeError)
    → parse_body buf max_length len k ≡ err x
    → parse_body (buf ++ more) max_length len k ≡ err x
unfolding parse_body
parse_body-append_err buf more max_length len k x h = ground arith

parse_body-append_ok :
    (buf more : List ℕ) (max_length len k n : ℕ) (e : Envelope)
    → parse_body buf max_length len k ≡ ok (some (e, n))
    → parse_body (buf ++ more) max_length len k ≡ ok (some (e, n))
unfolding parse_body
parse_body-append_ok buf more max_length len k n e h =
    let (limit, size, fits, t, p) = parse_body_inv buf max_length len k n e h in
    let lo = get_or-append_lt buf more k 0 (omega arith) in
    let hi = get_or-append_lt buf more (k + 1) 0 (omega arith) in
    let tail : take (k + 2 + len - (k + 2)) (drop (k + 2) (buf ++ more))
        ≡ take (k + 2 + len - (k + 2)) (drop (k + 2) buf) =
      ap (take (k + 2 + len - (k + 2))) (drop-append_le (k + 2) buf more (omega arith))
      ∙ take-append_le (k + 2 + len - (k + 2)) (drop (k + 2) buf) more
          (omega (arith, length-drop (k + 2) buf)) in
    ground (arith, length-append buf more, lo, hi, tail, limit, size, fits, t, p)

-- An envelope that `parse` found stays what it is when more bytes arrive.
parse-append_ok :
    (buf more : List ℕ) (max_length n : ℕ) (e : Envelope)
    → parse buf max_length ≡ ok (some (e, n))
    → parse (buf ++ more) max_length ≡ ok (some (e, n))
parse-append_ok buf more max_length n e h = elim (decode_cases buf) [
  | inl short ↦ cc (parse_incomplete buf max_length short)
  | inr (len, k, d) ↦
      parse_ok (buf ++ more) max_length len k (decode-append_ok buf more len k d)
      ∙ parse_body-append_ok buf more max_length len k n e
          (sym (parse_ok buf max_length len k d) ∙ h)
]

-- So does an error.
parse-append_err :
    (buf more : List ℕ) (max_length : ℕ) (x : EnvelopeError)
    → parse buf max_length ≡ err x
    → parse (buf ++ more) max_length ≡ err x
parse-append_err buf more max_length x h = elim (decode_cases buf) [
  | inl short ↦ cc (parse_incomplete buf max_length short)
  | inr (len, k, d) ↦
      parse_ok (buf ++ more) max_length len k (decode-append_ok buf more len k d)
      ∙ parse_body-append_err buf more max_length len k x
          (sym (parse_ok buf max_length len k d) ∙ h)
]
