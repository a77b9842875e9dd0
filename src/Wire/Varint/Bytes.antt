-- ===== src/Wire/Varint/Bytes.antt =====
-- The words that `decode` and `encode` build, in plain arithmetic.
use sardp.Base.{
  ℕ, zero, suc, ◌+◌, ◌-◌, ◌*◌, ◌/◌, ◌%◌, ◌^◌, ◌≤◌, ◌<◌, ◌≡◌, refl, bit_and, bit_or, List, [], ◌∷◌,
  ◌++◌, some, arith, length, take, All, ltb, if◌then◌else◌, ok, err,
}
use native.Mathlib.Nat.{pow-suc, one-le-pow, mul-le-mul_left, mul-le-mul_right}
use sardp.Base.Bits.{bit_and-mask, bit_or-shifted}
use sardp.Wire.Varint.Defs.{incomplete, IsByte, shift_in, fold_bytes, decode, max_value, encode}

shift_in-eq : (v b : ℕ) → v < 2 ^ 56 → IsByte b → shift_in v b ≡ v * 256 + b
unfolding shift_in
shift_in-eq v b hv hb =
    let e : v * 2 ^ 8 % 2 ^ 64 ≡ v * 2 ^ 8 = omega arith in rw e (bit_or-shifted 8 v b hb)

-- The number that bytes stand for, highest first, behind the bits `v` that precede them.
unfoldable pub be_value : ℕ → List ℕ → ℕ
be_value v [] = v
be_value v (b ∷ bs) = be_value (v * 256 + b) bs

-- Eight more bits fit where there is room for q * 256 more values.
room_high : (v q : ℕ) → 1 ≤ q → (v + 1) * (q * 256) ≤ 2 ^ 64 → v < 2 ^ 56
room_high v q h fits = omega (arith, mul-le-mul_left (v * 256) h, fits)

room_low : (v b q : ℕ) → b < 256 → (v + 1) * (q * 256) ≤ 2 ^ 64 → (v * 256 + b + 1) * q ≤ 2 ^ 64
room_low v b q h fits = omega (arith, mul-le-mul_right q h)

pub fold_bytes-be_value :
    (v n : ℕ) (bs : List ℕ)
    → All IsByte bs
    → length bs ≤ n
    → (v + 1) * 256 ^ n ≤ 2 ^ 64
    → fold_bytes v bs ≡ be_value v bs
unfolding fold_bytes be_value
fold_bytes-be_value v n [] hb hn h = refl
fold_bytes-be_value v zero (b ∷ bs) hb hn h = absurd (omega arith)
fold_bytes-be_value v (suc n) (b ∷ bs) hb hn h =
    let room = rw (pow-suc 256 n) at h in
    rw (shift_in-eq v b (room_high v (256 ^ n) (one-le-pow n 256 (omega arith)) room) hb.0)
      (fold_bytes-be_value (v * 256 + b) n bs hb.1 (omega arith) (room_low v b (256 ^ n) hb.0 room))

-- The low six bits of a first byte, and its length class.
low_six : (b : ℕ) → bit_and b 0x3f ≡ b % 64
low_six b = bit_and-mask 6 b

pub decode-first :
    (first k : ℕ) (rest : List ℕ)
    → first / 64 ≡ k
    → decode (first ∷ rest) ≡ (
        if ltb (suc (length rest)) (2 ^ k)
        then err incomplete
        else ok (fold_bytes (first % 64) (take (2 ^ k - 1) rest), 2 ^ k))
unfolding decode
decode-first first k rest h = rw (h, low_six first)

-- What `encode` writes: two bits for the length, then the number, highest byte first.
unfoldable pub encoding : ℕ → List ℕ
encoding v =
    if ltb v (2 ^ 6)
    then v ∷ []
    else if ltb v (2 ^ 14)
    then (64 + v / 256) ∷ v % 256 ∷ []
    else if ltb v (2 ^ 30)
    then (128 + v / 256 ^ 3) ∷ (v / 256 ^ 2 % 256) ∷ (v / 256 % 256) ∷ v % 256 ∷ []
    else (192 + v / 256 ^ 7)
      ∷ (v / 256 ^ 6 % 256)
      ∷ (v / 256 ^ 5 % 256)
      ∷ (v / 256 ^ 4 % 256)
      ∷ (v / 256 ^ 3 % 256)
      ∷ (v / 256 ^ 2 % 256)
      ∷ (v / 256 % 256)
      ∷ v % 256
      ∷ []

tag_two : (x : ℕ) → x < 2 ^ 6 → bit_or 0x40 x ≡ 64 + x
tag_two x h = bit_or-shifted 6 1 x h

tag_four : (x : ℕ) → x < 2 ^ 30 → bit_or 0x8000_0000 x ≡ 0x8000_0000 + x
tag_four x h = bit_or-shifted 30 2 x h

tag_eight : (x : ℕ) → x < 2 ^ 62 → bit_or 0xc000_0000_0000_0000 x ≡ 0xc000_0000_0000_0000 + x
tag_eight x h = bit_or-shifted 62 3 x h

pub encode-encoding :
    (v : ℕ) (out : List ℕ) → v ≤ max_value → encode v out ≡ some (out ++ encoding v)
unfolding encode encoding
encode-encoding v out h =
    ground (arith, tag_two (v % 2 ^ 16 / 2 ^ 8 % 2 ^ 8), tag_four (v % 2 ^ 32), tag_eight v)
