-- ===== src/Files/Transfer.antt =====
-- src/file_transfer_session.rs: the sender's chunks and the receiver's loop, the checks on an
-- accepted `file` stream, and the bit of each direction. CBOR, SHA-256, the transport and the clock
-- are parameters: bodies with their decoders, a hash, what each read of the stream gives, and whether
-- each wait for an envelope elapses.
pub mod Pieces
pub mod RoundTrip
pub mod Ownership
use sardp.Base.{
  ℕ, zero, suc, ◌+◌, ◌*◌, ◌%◌, ◌^◌, max, ◌≡◌, Bool, true, false, not, Option, none, some, List, [],
  ◌∷◌, ◌++◌, map, String, Result, ok, err, length, take, drop, ◌==◌, if◌then◌else◌,
}
use sardp.Session.ReasonCode.{
  ReasonCode, protocol_file_incomplete_transfer, protocol_file_checksum_mismatch,
  transport_stream_stall_timeout,
}
use sardp.Session.Messages.{
  FileChunk, FileTransferError, FileTransferDirection, upload, download, file_chunk,
  file_transfer_complete,
}
use sardp.Wire.StreamKind.{StreamKind, file, max_envelope_length}
use sardp.Wire.Reader.{EnvelopeReader, StreamReadError, read_envelope}
use sardp.Wire.Prologue.{StreamPrologue}
use sardp.Permission.PermissionSet.{file_up, file_down}
use sardp.Files.HandleStore.{FileHandleStore, FileHandleRecord, FileHandleError, validate}
use sardp.Files.Reassembly.{FileReassembly, new, apply_chunk, is_complete, verify_checksum}

unfoldable pub required_permission_bit : FileTransferDirection → ℕ
required_permission_bit upload = file_up
required_permission_bit download = file_down

-- The bodies of the two messages on a `file` stream: what the CBOR library promises is that it
-- decodes what it encoded.
pub record FileCodec (D : Type 0) : Type 0 where
  pub encode_chunk : FileChunk → List ℕ
  pub decode_chunk : List ℕ → Result D FileChunk
  pub encode_complete : List ℕ → List ℕ
  pub decode_complete : List ℕ → Result D (List ℕ)
  pub chunk_law : (c : FileChunk) → decode_chunk (encode_chunk c) ≡ ok c
  pub complete_law : (checksum : List ℕ) → decode_complete (encode_complete checksum) ≡ ok checksum

-- `data.chunks(chunk_size.max(1)).enumerate()` and the body of the loop, from an index on. The
-- fuel is the number of bytes, since each turn takes one at least.
unfoldable pub chunks_from : ℕ → ℕ → ℕ → List ℕ → List FileChunk
chunks_from zero index chunk_size bytes = []
chunks_from (suc fuel) index chunk_size [] = []
chunks_from (suc fuel) index chunk_size (b ∷ bs) =
    let chunk_bytes = take (max chunk_size 1) (b ∷ bs) in
    record {
      offset = index * chunk_size % 2 ^ 64;
      length = length chunk_bytes % 2 ^ 32;
      content = chunk_bytes;
    }
    ∷ chunks_from fuel (suc index) chunk_size (drop (max chunk_size 1) (b ∷ bs))

pub data FileTransferSessionError (R D : Type 0) : Type 0 where
  read : StreamReadError R → FileTransferSessionError R D
  decode : D → FileTransferSessionError R D
  wrong_stream_kind : FileTransferSessionError R D
  unexpected_type : ℕ → FileTransferSessionError R D
  ownership_rejected : FileHandleError → FileTransferSessionError R D

pub data ReceiveOutcome : Type 0 where
  complete : List ℕ → ReceiveOutcome
  error : FileTransferError → ReceiveOutcome

abbrev report : ℕ → ReasonCode → ReceiveOutcome
report file_handle reason = error (record { file_handle = file_handle; reason = reason })

-- The branch of `FileTransferComplete`.
unfoldable pub finish : (List ℕ → List ℕ) → FileReassembly → ℕ → List ℕ → ReceiveOutcome
finish sha256 r file_handle checksum =
    if not (is_complete r)
    then report file_handle protocol_file_incomplete_transfer
    else if not (verify_checksum sha256 r checksum)
    then report file_handle protocol_file_checksum_mismatch
    else complete r.contents

module _ {D : Type 0} (codec : FileCodec D) (sha256 : List ℕ → List ℕ) where
  -- The envelopes of `send_file_data`, in their order. A write that fails ends them early.
  unfoldable pub send_file_data : List ℕ → ℕ → List (ℕ × List ℕ)
  send_file_data bytes chunk_size =
      map (λ c. (file_chunk, codec.encode_chunk c)) (chunks_from (length bytes) 0 chunk_size bytes)
      ++ (file_transfer_complete, codec.encode_complete (sha256 bytes)) ∷ []

module _ {R D : Type 0} (codec : FileCodec D) (sha256 : List ℕ → List ℕ) where
  -- The loop. Each wait for an envelope is under the stall timeout: whether it elapses is the
  -- clock's part, one answer for each wait. `none` where the loop still waits when the answers end.
  unfoldable pub receive_loop :
      FileReassembly
      → ℕ
      → List Bool
      → EnvelopeReader R
      → Option (Result (FileTransferSessionError R D) ReceiveOutcome)
  unfolding finish
  receive_loop r file_handle [] reader = none
  receive_loop r file_handle (true ∷ waits) reader =
      some (ok (report file_handle transport_stream_stall_timeout))
  receive_loop r file_handle (false ∷ waits) reader =
      let (reader', result) = read_envelope reader (max_envelope_length file) in
      elim result [
        | err e ↦ some (err (read e))
        | ok (type_raw, payload) ↦
            if type_raw == file_chunk
            then elim (codec.decode_chunk payload) [
              | err e ↦ some (err (decode e))
              | ok chunk ↦
                  let (r', applied) = apply_chunk r chunk in
                  let rest = receive_loop r' file_handle waits reader' in
                  elim applied [ err reason ↦ some (ok (report file_handle reason)) | ok u ↦ rest ]
            ]
            else if type_raw == file_transfer_complete
            then elim (codec.decode_complete payload) [
              | err e ↦ some (err (decode e))
              | ok checksum ↦ some (ok (finish sha256 r file_handle checksum))
            ]
            else some (err (unexpected_type type_raw))
      ]

  unfoldable pub receive_file :
      ℕ
      → ℕ
      → List Bool
      → EnvelopeReader R
      → Option (Result (FileTransferSessionError R D) ReceiveOutcome)
  receive_file file_handle resolved_size = receive_loop (new resolved_size) file_handle

module _ {R D : Type 0} where
  -- `accept_file_stream_verified`, from the prologue on: a stream that is refused is stopped.
  unfoldable pub accept_file_stream_verified :
      FileHandleStore
      → StreamPrologue
      → List ℕ
      → String
      → FileTransferDirection
      → ℕ
      → Result (FileTransferSessionError R D) ℕ
  accept_file_stream_verified store prologue session_id user_id direction now_us =
      elim prologue.kind [
        | file ↦ elim (validate store prologue.context_id session_id user_id direction now_us) [
          | ok r ↦ ok prologue.context_id
          | err e ↦ err (ownership_rejected e)
        ]
        | _ ↦ err wrong_stream_kind
      ]
