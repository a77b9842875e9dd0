-- ===== src/Files/Reassembly.antt =====
-- src/file_transfer_session.rs: the reassembly of one file. SHA-256 is a library's, a parameter.
pub mod Coverage
pub mod Copy
pub mod Contents
pub mod Overlap
use sardp.Base.{
  ℕ, ◌+◌, ◌-◌, ◌^◌, ◌≡◌, Bool, true, false, not, ◌&&◌, Option, none, some, List, [], ◌∷◌, ◌++◌,
  Result, ok, err, length, take, drop, replicate, leb, ltb, max, ◌==◌, if◌then◌else◌,
}
use sardp.Base.Eq.{bytes_eq, ◌=?◌}
use sardp.Session.ReasonCode.{
  ReasonCode, protocol_file_chunk_out_of_range, protocol_file_chunk_overlap,
}
use sardp.Session.Messages.{FileChunk}

-- `contents` is the field `data`.
pub record FileReassembly : Type 0 where
  pub resolved_size : ℕ
  pub received_ranges : List (ℕ × ℕ)
  pub contents : List ℕ

unfoldable pub new : ℕ → FileReassembly
new resolved_size = record {
  resolved_size = resolved_size;
  received_ranges = [];
  contents = replicate resolved_size 0;
}

-- The loop over the ranges that were received.
unfoldable pub overlaps : ℕ → ℕ → List (ℕ × ℕ) → Bool
overlaps offset end [] = false
overlaps offset end ((existing_offset, existing_len) ∷ ranges) =
    if ltb offset (existing_offset + existing_len) && ltb existing_offset end
    then true
    else overlaps offset end ranges

-- `self.data[offset..end].copy_from_slice(content)`, for a slice within bounds.
abbrev pub copy_into : List ℕ → ℕ → ℕ → List ℕ → List ℕ
copy_into contents offset end content = take offset contents ++ (content ++ drop end contents)

unfoldable pub apply_chunk :
    FileReassembly → FileChunk → FileReassembly × Result ReasonCode (Unit {0})
apply_chunk r chunk =
    let end = chunk.offset + chunk.length in
    if not (length chunk.content == chunk.length)
    then (r, err protocol_file_chunk_out_of_range)
    else if leb (2 ^ 64) end
    then (r, err protocol_file_chunk_out_of_range)
    else if ltb r.resolved_size end
    then (r, err protocol_file_chunk_out_of_range)
    else if overlaps chunk.offset end r.received_ranges
    then (r, err protocol_file_chunk_overlap)
    else (
      record r {
        contents = copy_into r.contents chunk.offset end chunk.content;
        received_ranges = r.received_ranges ++ (chunk.offset, chunk.length) ∷ [];
      },
      ok tt,
    )

-- `sort_unstable_by_key` of the standard library, by insertion.
unfoldable pub insert_by_offset : ℕ × ℕ → List (ℕ × ℕ) → List (ℕ × ℕ)
insert_by_offset x [] = x ∷ []
insert_by_offset x (y ∷ ys) = if leb x.0 y.0 then x ∷ y ∷ ys else y ∷ insert_by_offset x ys

unfoldable pub sort_by_offset : List (ℕ × ℕ) → List (ℕ × ℕ)
unfolding insert_by_offset
sort_by_offset [] = []
sort_by_offset (x ∷ xs) = insert_by_offset x (sort_by_offset xs)

-- The loop over the sorted ranges, and the test behind it.
unfoldable pub covers : ℕ → ℕ → List (ℕ × ℕ) → Bool
covers resolved_size covered [] = leb resolved_size covered
covers resolved_size covered ((offset, len) ∷ ranges) =
    if ltb covered offset then false else covers resolved_size (max covered (offset + len)) ranges

unfoldable pub is_complete : FileReassembly → Bool
is_complete r = covers r.resolved_size 0 (sort_by_offset r.received_ranges)

unfoldable pub verify_checksum : (List ℕ → List ℕ) → FileReassembly → List ℕ → Bool
verify_checksum sha256 r checksum = sha256 r.contents =? checksum
