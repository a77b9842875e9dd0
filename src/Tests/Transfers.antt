-- ===== src/Tests/Transfers.antt =====
-- File transfers: handles, chunks and both ends of a stream.
use sardp.Base.{
  ℕ, ◌+◌, ◌%◌, ◌^◌, ◌≤◌, ◌≡◌, ◌↔◌, refl, Bool, true, false, none, some, List, [], ◌∷◌, Result, ok,
  err, length, All, arith,
}
use sardp.Base.Eq.{nat_eq}
use sardp.Base.Map
use mathlib.Core.List.{flatten}
use sardp.Wire.Varint
use sardp.Wire.Varint.{max_value}
use sardp.Wire.Reader
use sardp.Wire.Reader.Chunks.{reads, IsFrame}
use sardp.Wire.Reader.Streams.{write_all, write_all-frames}
use sardp.Wire.StreamKind.{file}
use sardp.Wire.Prologue.{StreamPrologue}
use sardp.Session.Messages.{FileChunk, upload, download}
use sardp.Files.HandleStore.{
  FileHandleStore, FileHandleRecord, validate, try_issue, draw_handle, issued,
}
use sardp.Files.HandleStore.Binding.{issued_handle}
use sardp.Files.Reassembly
use sardp.Files.Reassembly.{FileReassembly, is_complete}
use sardp.Files.Reassembly.Coverage.{AllIn, is_complete_iff}
use sardp.Files.Reassembly.Contents.{apply_all, complete_is_file}
use sardp.Files.Transfer.{
  FileCodec, chunks_from, complete, send_file_data, receive_file, receive_loop,
  accept_file_stream_verified,
}
use sardp.Files.Transfer.RoundTrip.{in_time, receive-send}
use sardp.Files.Transfer.Ownership.{Gathers, accept_iff, handed_over}

abbrev entry : FileHandleRecord
entry = record {
  session_id = 1 ∷ [];
  user_id = "ann";
  direction = upload;
  resolved_size = 3;
  expiry_ts = 500;
}

abbrev handles : FileHandleStore
handles = (77, entry) ∷ []

-- The first word that is drawn is the handle that is taken.
issues_next :
    (try_issue handles (2 ∷ []) "bob" download 9 100 5 400 (77 ∷ 78 ∷ [])).1 ≡ issued 78 500
unfolding try_issue draw_handle Map.contains_key Map.lookup
issues_next = refl

abbrev grown : FileHandleStore
grown = (try_issue handles (2 ∷ []) "bob" download 9 100 5 400 (77 ∷ 78 ∷ [])).0

issued_handle_example :
    (Map.lookup 78 handles ≡ none)
    × (78 ≤ max_value)
    × (500 ≡ (400 + 100) % 2 ^ 64)
    × (validate grown 78 (2 ∷ []) "bob" download 450
        ≡ ok (record {
          session_id = 2 ∷ [];
          user_id = "bob";
          direction = download;
          resolved_size = 9;
          expiry_ts = 500;
        }))
    × (Map.lookup 77 grown ≡ Map.lookup 77 handles)
issued_handle_example =
    issued_handle handles (2 ∷ []) "bob" download 9 100 5 400 (77 ∷ 78 ∷ []) 78 500 450 77
      issues_next (omega arith) (λ e. ground arith)

abbrev chunk : ℕ → List ℕ → FileChunk
chunk offset content = record { offset = offset; length = length content; content = content }

-- The last byte first.
abbrev out_of_order : List FileChunk
out_of_order = chunk 2 (7 ∷ []) ∷ chunk 0 (5 ∷ 6 ∷ []) ∷ []

all_there : is_complete (apply_all (Reassembly.new 3) out_of_order) ≡ true
unfolding is_complete Reassembly.new Reassembly.apply_chunk Reassembly.overlaps
    Reassembly.sort_by_offset Reassembly.covers
all_there = refl

complete_is_file_example : (apply_all (Reassembly.new 3) out_of_order).contents ≡ 5 ∷ 6 ∷ 7 ∷ []
complete_is_file_example =
    complete_is_file (5 ∷ 6 ∷ 7 ∷ []) out_of_order (refl, (refl, tt)) all_there

abbrev ranged : FileReassembly
ranged = record {
  resolved_size = 3;
  received_ranges = (2, 1) ∷ (0, 2) ∷ [];
  contents = 5 ∷ 6 ∷ 7 ∷ [];
}

is_complete_iff_example : (is_complete ranged ≡ true) ↔ AllIn 3 ranged.received_ranges
is_complete_iff_example = is_complete_iff ranged (omega arith, (omega arith, tt))

-- Bodies as plain lists of numbers: the offset and the length, and then the bytes.
decode_plain : List ℕ → Result ℕ FileChunk
decode_plain (o ∷ l ∷ bytes) = ok (record { offset = o; length = l; content = bytes })
decode_plain _ = err 0

abbrev plain : FileCodec ℕ
unfolding decode_plain
plain = record {
  encode_chunk = λ c. c.offset ∷ c.length ∷ c.content;
  decode_chunk = decode_plain;
  encode_complete = λ checksum. checksum;
  decode_complete = λ payload. ok payload;
  chunk_law = λ c. refl;
  complete_law = λ checksum. refl;
}

abbrev first_byte : List ℕ → List ℕ
first_byte [] = []
first_byte (b ∷ bs) = b ∷ []

abbrev three : List ℕ
three = 5 ∷ 6 ∷ 7 ∷ []

-- The three envelopes of a file of three bytes, cut in the middle of the first and of the third.
abbrev pieces : List (List ℕ)
pieces =
    (4 ∷ 0x18 ∷ 0 ∷ 0 ∷ [])
    ∷ (2 ∷ 5 ∷ 6 ∷ 3 ∷ 0x18 ∷ 0 ∷ 2 ∷ 1 ∷ 7 ∷ 1 ∷ [])
    ∷ (0x19 ∷ 0 ∷ 5 ∷ [])
    ∷ []

three_fit : All (IsFrame (2 ^ 20)) (send_file_data plain first_byte three 2)
unfolding send_file_data chunks_from plain
three_fit = (
  (omega arith, omega arith, omega arith),
  ((omega arith, omega arith, omega arith), ((omega arith, omega arith, omega arith), tt)),
)

three_written : write_all [] (send_file_data plain first_byte three 2) ≡ some (flatten pieces)
unfolding send_file_data chunks_from Varint.encoding flatten plain
three_written = write_all-frames (2 ^ 20) (send_file_data plain first_byte three 2) [] three_fit

receive-send_example :
    receive_file {R = ℕ} plain first_byte 77 3
      (in_time (send_file_data plain first_byte three 2) [])
      (Reader.new (reads pieces []))
    ≡ some (ok (complete three))
receive-send_example =
    receive-send plain first_byte three 77 2 (omega arith) (omega arith) (omega arith) three_fit []
      pieces [] three_written

abbrev three_waits : List Bool
three_waits = false ∷ false ∷ false ∷ []

arrives :
    receive_loop {R = ℕ} plain first_byte
      (Reassembly.new 3)
      77
      three_waits
      (Reader.new (reads pieces []))
    ≡ some (ok (complete three))
unfolding receive_file send_file_data chunks_from
arrives = receive-send_example

handed_over_example :
    (last : FileReassembly) × Gathers {R = ℕ} plain
      (Reassembly.new 3)
      three_waits
      (Reader.new (reads pieces []))
      last
      (first_byte three)
    × (three ≡ last.contents)
    × (is_complete last ≡ true)
handed_over_example =
    handed_over {R = ℕ} plain first_byte three_waits (Reader.new (reads pieces []))
      (Reassembly.new 3) 77 three arrives

abbrev named : StreamPrologue
named = record { kind = file; version = 1; context_id = 77 }

accept_iff_example :
    (accept_file_stream_verified {R = ℕ} {D = ℕ} handles named (1 ∷ []) "ann" upload 500 ≡ ok 77)
    ↔ ((named.kind ≡ file)
        × (named.context_id ≡ 77)
        × ((s : FileHandleRecord) × (Map.lookup 77 handles ≡ some s)
            × (s.session_id ≡ 1 ∷ [])
            × (s.user_id ≡ "ann")
            × (s.direction ≡ upload)
            × (500 ≤ s.expiry_ts)))
accept_iff_example = accept_iff {R = ℕ} {D = ℕ} handles named (1 ∷ []) "ann" upload 500 77
