-- ===== src/Wire/Varint/Defs.antt =====
-- src/varint.rs: the functions. A panic is `none`.
use sardp.Base.{
  ℕ, zero, suc, ◌-◌, ◌*◌, ◌/◌, ◌%◌, ◌^◌, ◌<◌, bit_and, bit_or, List, [], ◌∷◌, ◌++◌, Option, none,
  some, Result, ok, err, ◌>>=◌, ok_or, length, take, ltb, leb, if◌then◌else◌,
}
use mathlib.Core.List.{head?, tail}

pub data VarintError : Type 0 where
  incomplete : VarintError

abbrev pub IsByte : ℕ → Type 0
IsByte b = b < 256

-- `value = (value << 8) | u64::from(byte)`.
unfoldable pub shift_in : ℕ → ℕ → ℕ
shift_in value byte = bit_or (value * 2 ^ 8 % 2 ^ 64) byte

-- The loop over `&buf[1..len]`.
unfoldable pub fold_bytes : ℕ → List ℕ → ℕ
unfolding shift_in
fold_bytes value [] = value
fold_bytes value (b ∷ bs) = fold_bytes (shift_in value b) bs

-- `Ok((value, consumed_bytes))`.
unfoldable pub decode : List ℕ → Result VarintError (ℕ × ℕ)
unfolding fold_bytes
decode buf = do
  first ← ok_or (head? buf) incomplete
  let len = 2 ^ (first / 2 ^ 6)
  if ltb (length buf) len
      then err incomplete
      else ok (fold_bytes (bit_and first 0x3f) (take (len - 1) (tail buf)), len)

abbrev pub max_value : ℕ
max_value = 2 ^ 62 - 1

-- `to_be_bytes` of an n-byte word.
abbrev pub to_be_bytes : ℕ → ℕ → List ℕ
to_be_bytes zero v = []
to_be_bytes (suc n) v = (v / 256 ^ n % 256) ∷ to_be_bytes n v

-- Appends to `out`. `none` is the panic of the assertion.
unfoldable pub encode : ℕ → List ℕ → Option (List ℕ)
encode value out =
    if leb value max_value
    then (if ltb value (2 ^ 6)
        then some (out ++ value % 2 ^ 8 ∷ [])
        else if ltb value (2 ^ 14)
        then (let v = value % 2 ^ 16 in
            some (out ++ bit_or 0x40 (v / 2 ^ 8 % 2 ^ 8) ∷ v % 2 ^ 8 ∷ []))
        else if ltb value (2 ^ 30)
        then (let v = value % 2 ^ 32 in some (out ++ to_be_bytes 4 (bit_or 0x8000_0000 v)))
        else some (out ++ to_be_bytes 8 (bit_or 0xc000_0000_0000_0000 value)))
    else none
