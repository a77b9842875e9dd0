-- ===== src/Tests/Streams.antt =====
-- The wire formats, on concrete bytes.
use sardp.Base.{ℕ, ◌≡◌, refl, some, List, [], ◌∷◌, ◌++◌, ok, All, arith}
use mathlib.Core.List.{flatten}
use sardp.Wire.Varint
use sardp.Wire.Reader.{new}
use sardp.Wire.Reader.Chunks.{reads, IsFrame}
use sardp.Wire.Reader.Streams.{write_all, read_many, frames, read_many-write_all}

two_byte_varint : Varint.decode (0x7b ∷ 0xbd ∷ []) ≡ ok (15293, 2)
unfolding Varint.decode
two_byte_varint = refl

abbrev messages : List (ℕ × List ℕ)
messages = (0x0018, 1 ∷ 2 ∷ []) ∷ (0x0019, 3 ∷ []) ∷ []

-- Cut in the middle of both messages.
abbrev pieces : List (List ℕ)
pieces = (2 ∷ []) ∷ (0x18 ∷ 0 ∷ 1 ∷ []) ∷ (2 ∷ 1 ∷ 0x19 ∷ 0 ∷ 3 ∷ []) ∷ []

messages-IsFrame : All (IsFrame 100) messages
messages-IsFrame =
    ((omega arith, omega arith, omega arith), ((omega arith, omega arith, omega arith), tt))

pieces-frames : flatten pieces ≡ frames messages
unfolding Varint.encoding flatten
pieces-frames = refl

read_many-write_all_example :
    (write_all [] messages ≡ some (frames messages))
    × (later : List (List ℕ)) × (kept : List ℕ) × (read_many {R = ℕ} 100 2 (new (reads pieces []))
        ≡ (record { recv = reads later []; buf = kept }, ok messages))
    × (kept ++ flatten later ≡ [])
read_many-write_all_example =
    read_many-write_all {R = ℕ} 100 messages pieces [] messages-IsFrame pieces-frames
