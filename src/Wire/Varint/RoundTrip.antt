-- ===== src/Wire/Varint/RoundTrip.antt =====
-- `decode` reads back what `encode` writes, byte for byte and from any cut.
use sardp.Base.{
  ℕ, zero, suc, ◌+◌, ◌-◌, ◌*◌, ◌/◌, ◌%◌, ◌^◌, ◌≤◌, ◌<◌, ◌≡◌, refl, sym, ◌∙◌, inl, inr, List, [],
  ◌∷◌, ◌++◌, append-nil, some, none, arith, length, take, drop, take-append-drop, take-All,
  length-take, ok_pair, subst, All, ok, err,
}
use sardp.Wire.Varint.Defs.{incomplete, IsByte, decode, max_value, encode}
use sardp.Wire.Varint.Bytes.{be_value, encoding, encode-encoding}
use sardp.Wire.Varint.Decode.{
  decode_full, decode_class, decode_bounds, decode_cases, decode-append_ok,
}

encoding-IsByte : (v : ℕ) → v ≤ max_value → All IsByte (encoding v)
unfolding encoding
encoding-IsByte v h = ground arith

length-encoding : (v : ℕ) → (1 ≤ length (encoding v)) × (length (encoding v) ≤ 8)
unfolding encoding
length-encoding v = ground arith

decode-All :
    (first k : ℕ) (rest more : List ℕ) (v : ℕ)
    → All IsByte (first ∷ rest)
    → first / 64 ≡ k
    → suc (length rest) ≡ 2 ^ k
    → v ≡ be_value (first % 64) (take (2 ^ k - 1) rest)
    → decode ((first ∷ rest) ++ more) ≡ ok (v, suc (length rest))
decode-All first k rest more v bytes class len value =
    decode-append_ok (first ∷ rest) more v _
      (decode_full first k rest bytes class (omega arith) ∙ rw (value, len))

two_bytes :
    (v : ℕ) (rest : List ℕ)
    → v < 2 ^ 14
    → decode (((64 + v / 256) ∷ v % 256 ∷ []) ++ rest) ≡ ok (v, 2)
unfolding be_value
two_bytes v rest h =
    decode-All (64 + v / 256) 1 (v % 256 ∷ []) rest v (omega arith) (omega arith) refl (omega arith)

four_bytes :
    (v : ℕ) (rest : List ℕ)
    → v < 2 ^ 30
    → decode (((128 + v / 256 ^ 3) ∷ (v / 256 ^ 2 % 256) ∷ (v / 256 % 256) ∷ v % 256 ∷ []) ++ rest)
      ≡ ok (v, 4)
unfolding be_value
four_bytes v rest h =
    decode-All (128 + v / 256 ^ 3) 2 ((v / 256 ^ 2 % 256) ∷ (v / 256 % 256) ∷ v % 256 ∷ []) rest v
      (omega arith) (omega arith) refl (omega arith)

abbrev low_seven : ℕ → List ℕ
low_seven v =
    (v / 256 ^ 6 % 256)
    ∷ (v / 256 ^ 5 % 256)
    ∷ (v / 256 ^ 4 % 256)
    ∷ (v / 256 ^ 3 % 256)
    ∷ (v / 256 ^ 2 % 256)
    ∷ (v / 256 % 256)
    ∷ v % 256
    ∷ []

eight_bytes :
    (v : ℕ) (rest : List ℕ)
    → v ≤ max_value
    → decode (((192 + v / 256 ^ 7) ∷ low_seven v) ++ rest) ≡ ok (v, 8)
unfolding be_value
eight_bytes v rest h =
    decode-All (192 + v / 256 ^ 7) 3 (low_seven v) rest v (omega arith) (omega arith) refl
      (omega arith)

one_byte : (v : ℕ) (rest : List ℕ) → v < 2 ^ 6 → decode ((v ∷ []) ++ rest) ≡ ok (v, 1)
unfolding be_value
one_byte v rest h = decode-All v 0 [] rest v (omega arith) (omega arith) refl (omega arith)

-- The encoding of a number decodes to it, whatever follows.
pub decode-encoding :
    (v : ℕ) (rest : List ℕ)
    → v ≤ max_value
    → decode (encoding v ++ rest) ≡ ok (v, length (encoding v))
unfolding encoding
decode-encoding v rest h =
    ground (arith, one_byte v rest, two_bytes v rest, four_bytes v rest, eight_bytes v rest)

-- `decode` after `encode` gives the number and how many bytes it takes, whatever follows.
decode-encode :
    (v : ℕ) (rest : List ℕ)
    → v ≤ max_value
    → (w : List ℕ) × (encode v [] ≡ some w) × (decode (w ++ rest) ≡ ok (v, length w))
decode-encode v rest h = (encoding v, encode-encoding v [] h, decode-encoding v rest h)

-- `encode` panics exactly on numbers of more than 62 bits.
encode_panics : (v : ℕ) (out : List ℕ) → max_value < v → encode v out ≡ none
unfolding encode
encode_panics v out h = ground arith

-- Every cut of an encoding is reported as incomplete.
pub decode-take :
    (v n : ℕ)
    → v ≤ max_value
    → n < length (encoding v)
    → decode (take n (encoding v)) ≡ err incomplete
decode-take v n h cut = elim (decode_cases (take n (encoding v))) [
  | inl short ↦ short
  | inr (u, m, early) ↦
      let bytes = take-All IsByte n (encoding v) (encoding-IsByte v h) in
      let fits = decode_bounds (take n (encoding v)) u m bytes early in
      let whole : decode (encoding v) ≡ ok (u, m) =
        subst (λ (b : List ℕ). decode b ≡ ok (u, m)) (take-append-drop n (encoding v))
          (decode-append_ok _ (drop n (encoding v)) u m early) in
      let known : decode (encoding v) ≡ ok (v, length (encoding v)) =
        subst (λ (b : List ℕ). decode b ≡ ok (v, length (encoding v))) (append-nil (encoding v))
          (decode-encoding v [] h) in
      absurd (omega (arith, fits.3, length-take n (encoding v), (ok_pair (sym known ∙ whole)).1))
]

class_shortest : (k v : ℕ) → k < 4 → v < 64 * 256 ^ (2 ^ k - 1) → length (encoding v) ≤ 2 ^ k
unfolding encoding
class_shortest zero v small h = ground arith
class_shortest (suc zero) v small h = ground arith
class_shortest (suc (suc zero)) v small h = ground arith
class_shortest (suc (suc (suc zero))) v small h = ground arith
class_shortest (suc (suc (suc (suc k)))) v small h = absurd (omega arith)

-- No other accepted form of a number is shorter than the one that `encode` writes.
encoding_shortest :
    (buf : List ℕ) (v n : ℕ) → All IsByte buf → decode buf ≡ ok (v, n) → length (encoding v) ≤ n
encoding_shortest buf v n bytes e =
    let (k, small, len, below, enough) = decode_class buf v n bytes e in
    rw len (class_shortest k v small below)
