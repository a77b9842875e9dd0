-- ===== src/Wire/Varint/Decode.antt =====
-- What `decode` accepts, and what it answers on any buffer.
use sardp.Base.{
  ℕ, zero, suc, ◌+◌, ◌-◌, ◌*◌, ◌/◌, ◌%◌, ◌^◌, ◌≤◌, ◌<◌, ◌≡◌, refl, ap, sym, subst, ◌∙◌, ◌⊎◌, inl,
  inr, List, [], ◌∷◌, ◌++◌, arith, length, length-append, take, take-append_le, take-All,
  length-take_le, ok_pair, All, ltb, ok, err, Bool-cases, false, Result, ltb→lt, lt→ltb,
}
use native.Mathlib.Nat.{pow-suc, mul-le-mul_right}
use sardp.Wire.Varint.Defs.{VarintError, incomplete, IsByte, fold_bytes, decode, max_value}
use sardp.Wire.Varint.Bytes.{be_value, fold_bytes-be_value, decode-first}

be_value-lt : (v : ℕ) (bs : List ℕ) → All IsByte bs → be_value v bs < (v + 1) * 256 ^ length bs
unfolding be_value
be_value-lt v [] h = omega arith
be_value-lt v (b ∷ bs) h = omega (
  arith,
  be_value-lt (v * 256 + b) bs h.1,
  ap (λ (t : ℕ). (v + 1) * t) (pow-suc 256 (length bs)),
  mul-le-mul_right {m = v * 256 + b + 1} {n = (v + 1) * 256} (256 ^ length bs) (omega arith),
)

-- A first byte of length class k, with too few bytes behind it.
decode_short :
    (first k : ℕ) (rest : List ℕ)
    → first / 64 ≡ k
    → suc (length rest) < 2 ^ k
    → decode (first ∷ rest) ≡ err incomplete
decode_short first k rest h s = decode-first first k rest h ∙ rw (lt→ltb _ _ s)

-- With enough bytes the answer is the number that they stand for, and the class's length.
pub decode_full :
    (first k : ℕ) (rest : List ℕ)
    → All IsByte (first ∷ rest)
    → first / 64 ≡ k
    → 2 ^ k ≤ suc (length rest)
    → decode (first ∷ rest) ≡ ok (be_value (first % 64) (take (2 ^ k - 1) rest), 2 ^ k)
decode_full first k rest bytes h enough =
    decode-first first k rest h ∙ elim (Bool-cases (ltb (suc (length rest)) (2 ^ k))) [
      | inl short ↦ absurd (omega (arith, ltb→lt _ _ short))
      | inr long ↦ rw (long, value)
    ]
  where
    fits : (k : ℕ) → k < 4 → (first % 64 + 1) * 256 ^ (2 ^ k - 1) ≤ 2 ^ 64
    fits zero b = omega arith
    fits (suc zero) b = omega arith
    fits (suc (suc zero)) b = omega arith
    fits (suc (suc (suc zero))) b = omega arith
    fits (suc (suc (suc (suc k)))) b = absurd (omega arith)

    value :
        fold_bytes (first % 64) (take (2 ^ k - 1) rest)
        ≡ be_value (first % 64) (take (2 ^ k - 1) rest)
    value =
        fold_bytes-be_value (first % 64) (2 ^ k - 1) (take (2 ^ k - 1) rest)
          (take-All IsByte (2 ^ k - 1) rest bytes.1)
          (omega (arith, length-take_le (2 ^ k - 1) rest (omega arith)))
          (fits k (omega (arith, bytes.0)))

-- The four ways in which a buffer decodes, read back from the answer.
decode_inv :
    (buf : List ℕ) (v n : ℕ)
    → All IsByte buf
    → decode buf ≡ ok (v, n)
    → (first : ℕ) × (k : ℕ) × (rest : List ℕ) × (buf ≡ first ∷ rest)
      × (first / 64 ≡ k)
      × (k < 4)
      × (n ≡ 2 ^ k)
      × (n ≤ suc (length rest))
      × (v ≡ be_value (first % 64) (take (n - 1) rest))
decode_inv [] v n bytes e = unfold decode in cc
decode_inv (first ∷ rest) v n bytes e =
    elim (Bool-cases (ltb (suc (length rest)) (2 ^ (first / 64)))) [
      | inl short ↦ cc (decode_short first (first / 64) rest refl (ltb→lt _ _ short))
      | inr long ↦
          let enough : 2 ^ (first / 64) ≤ suc (length rest) = ground arith in
          let (same, len) = ok_pair (sym (decode_full first _ rest bytes refl enough) ∙ e) in
          (
            first,
            first / 64,
            rest,
            refl,
            refl,
            omega (arith, bytes.0),
            sym len,
            omega (arith, len),
            rw (← len) (sym same),
          )
    ]

-- Whatever follows a decoded number is not looked at.
pub decode-append_ok :
    (buf more : List ℕ) (v n : ℕ) → decode buf ≡ ok (v, n) → decode (buf ++ more) ≡ ok (v, n)
decode-append_ok [] more v n e = unfold decode in cc
decode-append_ok (first ∷ rest) more v n e =
    elim (Bool-cases (ltb (suc (length rest)) (2 ^ (first / 64)))) [
      | inl short ↦ cc (decode_short first (first / 64) rest refl (ltb→lt _ _ short))
      | inr long ↦
          let enough : 2 ^ (first / 64) ≤ suc (length rest) = ground arith in
          decode-first first (first / 64) (rest ++ more) refl
          ∙ rw (same_test enough, take-append_le (2 ^ (first / 64) - 1) rest more (omega arith))
              (rw long at (sym (decode-first first (first / 64) rest refl) ∙ e))
    ]
  where
    same_test :
        2 ^ (first / 64) ≤ suc (length rest)
        → ltb (suc (length (rest ++ more))) (2 ^ (first / 64)) ≡ false
    same_test enough = ground (arith, length-append rest more)

-- An accepted number has at most six bits, and eight more for each byte behind the first.
pub decode_class :
    (buf : List ℕ) (v n : ℕ)
    → All IsByte buf
    → decode buf ≡ ok (v, n)
    → (k : ℕ) × (k < 4) × (n ≡ 2 ^ k) × (v < 64 * 256 ^ (2 ^ k - 1)) × (n ≤ length buf)
decode_class buf v n bytes e =
    let (first, k, rest, shape, class, small, len, enough, value) = decode_inv buf v n bytes e in
    let bytes' : All IsByte (first ∷ rest) = subst (All IsByte) shape bytes in
    let all : length (take (n - 1) rest) ≡ 2 ^ k - 1 =
      omega (arith, length-take_le (n - 1) rest (omega arith)) in
    let fits =
      be_value-lt (first % 64) (take (n - 1) rest) (take-All IsByte (n - 1) rest bytes'.1) in
    (
      k,
      small,
      len,
      omega (
        arith,
        value,
        fits,
        ap (λ (t : ℕ). 256 ^ t) all,
        mul-le-mul_right {m = first % 64 + 1} {n = 64} (256 ^ (2 ^ k - 1)) (omega arith),
        ap (λ (t : ℕ). (first % 64 + 1) * 256 ^ t) all,
      ),
      rw shape enough,
    )

class_bound :
    (k v : ℕ) → k < 4 → v < 64 * 256 ^ (2 ^ k - 1) → (v ≤ max_value) × (1 ≤ 2 ^ k) × (2 ^ k ≤ 8)
class_bound zero v small h = omega arith
class_bound (suc zero) v small h = omega arith
class_bound (suc (suc zero)) v small h = omega arith
class_bound (suc (suc (suc zero))) v small h = omega arith
class_bound (suc (suc (suc (suc k)))) v small h = absurd (omega arith)

-- An accepted number fits 62 bits and took between one and eight bytes of the buffer.
pub decode_bounds :
    (buf : List ℕ) (v n : ℕ)
    → All IsByte buf
    → decode buf ≡ ok (v, n)
    → (v ≤ max_value) × (1 ≤ n) × (n ≤ 8) × (n ≤ length buf)
decode_bounds buf v n bytes e =
    let (k, small, len, below, enough) = decode_class buf v n bytes e in
    let (top, low, high) = class_bound k v small below in (top, rw len low, rw len high, enough)

-- `decode` has one error, and otherwise answers.
pub decode_cases :
    (buf : List ℕ) → (decode buf ≡ err incomplete) ⊎ ((v : ℕ) × (n : ℕ) × (decode buf ≡ ok (v, n)))
decode_cases buf = go (decode buf) refl
  where
    go :
        (r : Result VarintError (ℕ × ℕ))
        → decode buf ≡ r
        → (decode buf ≡ err incomplete) ⊎ ((v : ℕ) × (n : ℕ) × (decode buf ≡ ok (v, n)))
    go (ok (v, n)) e = inr (v, n, e)
    go (err incomplete) e = inl e
