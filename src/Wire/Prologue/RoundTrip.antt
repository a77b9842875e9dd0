-- ===== src/Wire/Prologue/RoundTrip.antt =====
-- `parse` reads back what `encode` writes, and asks for more bytes at every cut of it.
use sardp.Base.{
  ℕ, zero, suc, ◌+◌, ◌≤◌, ◌<◌, ◌≡◌, refl, ap, ◌∙◌, List, [], ◌∷◌, ◌++◌, append_assoc, some, none,
  arith, length, take, ok,
}
use sardp.Wire.Varint.{max_value, encoding, encode-encoding}
use sardp.Wire.Varint.RoundTrip.{decode-encoding, decode-take}
use sardp.Wire.StreamKind.{StreamKind, to_byte, from_byte_iff}
use sardp.Wire.Prologue.{magic, encode, parse_context, parse}

-- The bytes of one prologue.
abbrev pub opening : StreamKind → ℕ → ℕ → List ℕ
opening k version context_id = magic ++ to_byte k ∷ version ∷ encoding context_id

encode-opening :
    (k : StreamKind) (version context_id : ℕ) (out : List ℕ)
    → context_id ≤ max_value
    → encode k version context_id out ≡ some (out ++ opening k version context_id)
unfolding encode
encode-opening k version context_id out h =
    encode-encoding context_id (out ++ magic ++ to_byte k ∷ version ∷ []) h
    ∙ ap some (
        append_assoc (out ++ magic) (to_byte k ∷ version ∷ []) (encoding context_id)
        ∙ append_assoc out magic (to_byte k ∷ version ∷ encoding context_id))

-- With the six fixed bytes there, the context id decides.
parse_six :
    (k : StreamKind) (version : ℕ) (rest : List ℕ)
    → parse (magic ++ to_byte k ∷ version ∷ rest)
      ≡ parse_context (magic ++ to_byte k ∷ version ∷ rest) k version
unfolding parse
parse_six k version rest = ground (arith, (from_byte_iff (to_byte k) k).1 refl)

pub parse-opening :
    (k : StreamKind) (version context_id : ℕ) (rest : List ℕ)
    → context_id ≤ max_value
    → parse (opening k version context_id ++ rest)
      ≡ ok (
          some (
            record { kind = k; version = version; context_id = context_id },
            length (opening k version context_id),
          ))
unfolding parse_context
parse-opening k version context_id rest h =
    parse_six k version (encoding context_id ++ rest)
    ∙ rw (decode-encoding context_id rest h, parse_context)
        (ap
          (λ (n : ℕ).
            ok (some (record { kind = k; version = version; context_id = context_id }, n)))
          six_more)
  where
    six_more : 6 + length (encoding context_id) ≡ length (opening k version context_id)
    six_more = omega arith

-- `parse` of what `encode` wrote: the prologue comes back with the number of its bytes.
pub parse-encode :
    (k : StreamKind) (version context_id : ℕ) (rest : List ℕ)
    → context_id ≤ max_value
    → (w : List ℕ) × (encode k version context_id [] ≡ some w)
      × (parse (w ++ rest)
          ≡ ok (some (record { kind = k; version = version; context_id = context_id }, length w)))
parse-encode k version context_id rest h = (
  opening k version context_id,
  encode-opening k version context_id [] h,
  parse-opening k version context_id rest h,
)

-- Every proper prefix of a prologue asks for more bytes.
pub parse-take :
    (k : StreamKind) (version context_id n : ℕ)
    → context_id ≤ max_value
    → n < length (opening k version context_id)
    → parse (take n (opening k version context_id)) ≡ ok none
unfolding parse
parse-take k version c zero h cut = refl
parse-take k version c (suc zero) h cut = refl
parse-take k version c (suc (suc zero)) h cut = refl
parse-take k version c (suc (suc (suc zero))) h cut = refl
parse-take k version c (suc (suc (suc (suc zero)))) h cut = refl
parse-take k version c (suc (suc (suc (suc (suc zero))))) h cut = refl
parse-take k version c (suc (suc (suc (suc (suc (suc n)))))) h cut =
    parse_six k version (take n (encoding c)) ∙ rw (decode-take c n h (omega arith), parse_context)
