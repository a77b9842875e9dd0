-- ===== src/Files/Reassembly/Overlap.antt =====
-- Which chunks are accepted.
use sardp.Base.{
  ℕ, ◌+◌, ◌^◌, ◌≤◌, ◌<◌, max, ◌≡◌, ◌↔◌, refl, inl, inr, false, ◌&&◌, List, [], ◌∷◌, ok, err, length,
  ltb, arith, Bool-cases,
}
use sardp.Session.ReasonCode.{protocol_file_chunk_overlap}
use sardp.Session.Messages.{FileChunk}
use sardp.Files.Reassembly.{FileReassembly, overlaps, apply_chunk}
use sardp.Files.Reassembly.Coverage.{IsIn}

-- No range that was received is empty.
abbrev AllNonempty : List (ℕ × ℕ) → Type 0
AllNonempty [] = Unit {0}
AllNonempty ((offset, len) ∷ ranges) = (0 < len) × AllNonempty ranges

-- None of the bytes from `offset` to `end` was received.
abbrev IsFree : ℕ → ℕ → List (ℕ × ℕ) → Type 0
IsFree offset end ranges = (p : ℕ) → offset ≤ p → p < end → IsIn p ranges → ⊥

overlaps-IsFree :
    (offset end : ℕ) (ranges : List (ℕ × ℕ))
    → overlaps offset end ranges ≡ false
    → IsFree offset end ranges
unfolding overlaps
overlaps-IsFree offset end [] h p low high i = i
overlaps-IsFree offset end ((o, l) ∷ ranges) h p low high (inl i) = ground arith
overlaps-IsFree offset end ((o, l) ∷ ranges) h p low high (inr i) =
    overlaps-IsFree offset end ranges (ground arith) p low high i

free_overlaps :
    (offset end : ℕ) (ranges : List (ℕ × ℕ))
    → offset < end
    → AllNonempty ranges
    → IsFree offset end ranges
    → overlaps offset end ranges ≡ false
unfolding overlaps
free_overlaps offset end [] h n free = refl
free_overlaps offset end ((o, l) ∷ ranges) h n free =
    let ih = free_overlaps offset end ranges h n.1 (λ p low high i. free p low high (inr i)) in
    elim (Bool-cases (ltb offset (o + l) && ltb o end)) [
      | inl e ↦
          absurd
            (free (max offset o) (ground arith) (ground arith) (inl (ground arith, ground arith)))
      | inr e ↦ rw e ih
    ]

-- A chunk that is not empty is accepted exactly if its length is that of its bytes, it ends within
-- the file and within 64 bits, and no byte of it was received before; as long as no empty chunk
-- was accepted.
accepted_iff :
    (r : FileReassembly) (chunk : FileChunk)
    → AllNonempty r.received_ranges
    → 0 < chunk.length
    → ((apply_chunk r chunk).1 ≡ ok tt) ↔ (
        (length chunk.content ≡ chunk.length)
        × (chunk.offset + chunk.length < 2 ^ 64)
        × (chunk.offset + chunk.length ≤ r.resolved_size)
        × IsFree chunk.offset (chunk.offset + chunk.length) r.received_ranges)
unfolding apply_chunk
accepted_iff r chunk nonempty some_bytes =
    let end = chunk.offset + chunk.length in
    (
      λ h. (
        ground arith,
        ground arith,
        ground arith,
        overlaps-IsFree chunk.offset end r.received_ranges (ground arith),
      ),
      λ (same, small, fits, free).
          let e = free_overlaps chunk.offset end r.received_ranges (omega arith) nonempty free in
          ground (arith, e),
    )

-- An empty chunk inside a range that comes later makes that range count as an overlap, though no
-- byte of it was received.
empty_chunk_overlaps :
    (r : FileReassembly) (chunk : FileChunk) (o : ℕ) (ranges : List (ℕ × ℕ))
    → r.received_ranges ≡ (o, 0) ∷ ranges
    → chunk.offset < o
    → o < chunk.offset + chunk.length
    → length chunk.content ≡ chunk.length
    → chunk.offset + chunk.length < 2 ^ 64
    → chunk.offset + chunk.length ≤ r.resolved_size
    → apply_chunk r chunk ≡ (r, err protocol_file_chunk_overlap)
unfolding apply_chunk overlaps
empty_chunk_overlaps r chunk o ranges h low high same small fits = ground arith
