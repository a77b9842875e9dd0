-- ===== src/Wire/Envelope.antt =====
-- src/envelope.rs: the frame of every message. On a 64-bit target the conversion of the checked
-- length to `usize` is the identity.
pub mod Parse
pub mod RoundTrip
use sardp.Base.{
  ℕ, suc, ◌+◌, ◌-◌, ◌*◌, ◌/◌, ◌%◌, ◌≤◌, ◌<◌, bit_and, not, Bool, List, [], ◌∷◌, ◌++◌, Option, none,
  some, Result, ok, err, length, take, drop, get_or, ltb, leb, ◌==◌, if◌then◌else◌,
}
use sardp.Wire.Varint.{incomplete}
use sardp.Wire.Varint

pub record Envelope : Type 0 where
  pub type_raw : ℕ
  pub payload : List ℕ

abbrev ignorable_flag : ℕ
ignorable_flag = 0x8000

abbrev type_id_mask : ℕ
type_id_mask = 0x7fff

abbrev core_type_id_max : ℕ
core_type_id_max = 0x3fff

unfoldable is_ignorable : Envelope → Bool
is_ignorable e = not (bit_and e.type_raw ignorable_flag == 0)

unfoldable type_id : Envelope → ℕ
type_id e = bit_and e.type_raw type_id_mask

unfoldable is_core : Envelope → Bool
unfolding type_id
is_core e = leb (type_id e) core_type_id_max

pub data EnvelopeError : Type 0 where
  length_exceeds_limit : ℕ → ℕ → EnvelopeError

-- `u16::to_le_bytes` and `u16::from_le_bytes`.
abbrev pub to_le_bytes : ℕ → List ℕ
to_le_bytes t = t % 256 ∷ (t / 256 % 256) ∷ []

abbrev pub from_le_bytes : ℕ → ℕ → ℕ
from_le_bytes lo hi = lo + 256 * hi

-- Appends to `out`. `none` is the panic of `varint::encode`.
unfoldable pub encode : ℕ → List ℕ → List ℕ → Option (List ℕ)
encode type_raw payload out = elim (Varint.encode (length payload) out) [
  | none ↦ none
  | some out' ↦ some (out' ++ to_le_bytes type_raw ++ payload)
]

-- What follows the decoded length. `none` asks for more bytes.
unfoldable pub parse_body : List ℕ → ℕ → ℕ → ℕ → Result EnvelopeError (Option (Envelope × ℕ))
parse_body buf max_length len length_len =
    if ltb max_length len
    then err (length_exceeds_limit len max_length)
    else (let header_len = length_len + 2 in
        let total_len = header_len + len in
        if ltb (length buf) header_len
        then ok none
        else if ltb (length buf) total_len
        then ok none
        else ok (
            some (
              record {
                type_raw = from_le_bytes (get_or buf length_len 0) (get_or buf (length_len + 1) 0);
                payload = take (total_len - header_len) (drop header_len buf);
              },
              total_len,
            )))

unfoldable pub parse : List ℕ → ℕ → Result EnvelopeError (Option (Envelope × ℕ))
unfolding parse_body
parse buf max_length = elim (Varint.decode buf) [
  | err incomplete ↦ ok none
  | ok (len, length_len) ↦ parse_body buf max_length len length_len
]
