-- ===== src/Files/Transfer/RoundTrip.antt =====
-- What one side sends, the other reassembles.
use sardp.Base.{
  ℕ, zero, suc, ◌+◌, ◌*◌, ◌^◌, ◌≤◌, ◌<◌, min, max, ◌≡◌, refl, ap, ◌∙◌, subst, Bool, true, false,
  some, List, [], ◌∷◌, ◌++◌, map, Result, ok, length, drop, length-drop, All, arith,
}
use mathlib.Core.List.{flatten}
use sardp.Base.Eq.{bytes_eq, bytes_beq_iff}
use sardp.Session.Messages.{FileChunk, file_chunk, file_transfer_complete}
use sardp.Wire.StreamKind
use sardp.Wire.StreamKind.{max_envelope_length}
use sardp.Wire.Envelope.RoundTrip.{frame}
use sardp.Wire.Reader.{EnvelopeReader, read_envelope}
use sardp.Wire.Reader
use sardp.Wire.Reader.Chunks.{reads, IsFrame, read_envelope-reads}
use sardp.Wire.Reader.Streams.{frames, write_all, write_all-frames}
use sardp.Files.Reassembly.{FileReassembly, new, apply_chunk, is_complete, verify_checksum}
use sardp.Files.Reassembly.Coverage.{covered_iff}
use sardp.Files.Reassembly.Copy.{extensionality}
use sardp.Files.Reassembly.Contents.{after}
use sardp.Files.Transfer.{
  FileCodec, chunks_from, complete, send_file_data, finish, receive_loop, receive_file,
}
use sardp.Files.Transfer.Pieces.{
  Progress, new-Progress, piece, remaining, offset-piece, length-piece, same-piece, piece-IsSlice,
  next_index, drop-piece, next_accepted, next_Progress,
}

abbrev limit : ℕ
limit = max_envelope_length StreamKind.file

-- No wait elapses for so many messages.
abbrev pub in_time : List (ℕ × List ℕ) → List Bool → List Bool
in_time messages later = map (λ m. false) messages ++ later

module _ {D : Type 0} (codec : FileCodec D) (sha256 : List ℕ → List ℕ) (file : List ℕ) where
  abbrev announced : ℕ × List ℕ
  announced = (file_transfer_complete, codec.encode_complete (sha256 file))

  abbrev messages : List FileChunk → List (ℕ × List ℕ)
  messages cs = map (λ c. (file_chunk, codec.encode_chunk c)) cs ++ announced ∷ []

  module _ {R : Type 0} (file_handle chunk_size : ℕ) (small : length file < 2 ^ 64)
      (some_bytes : 0 < chunk_size) (chunk_small : chunk_size < 2 ^ 32) where
    -- All bytes are there, and `FileTransferComplete` arrives.
    finished :
        (r : FileReassembly)
        → Progress file r (length file)
        → (waits : List Bool) (reader reader' : EnvelopeReader R)
        → read_envelope reader limit
          ≡ (reader', ok (file_transfer_complete, codec.encode_complete (sha256 file)))
        → receive_loop codec sha256 r file_handle (false ∷ waits) reader ≡ some (ok (complete file))
    unfolding receive_loop finish verify_checksum
    finished r progress waits reader reader' taken =
        let agrees = progress.agrees in
        let done : is_complete r ≡ true =
          (covered_iff r agrees.within).1
            (λ p h. progress.covered p (omega (arith, agrees.size))) in
        let same : r.contents ≡ file =
          extensionality r.contents file (omega (arith, agrees.filled, agrees.size))
            (λ p h. agrees.bytes p (progress.covered p h)) in
        rw (taken, receive_loop)
          (ground (
            arith,
            codec.complete_law (sha256 file),
            done,
            same,
            (bytes_beq_iff (sha256 file) (sha256 file)).1 refl,
          ))

    -- One chunk of the loop, once it was accepted.
    receive_piece :
        (r r' : FileReassembly) (c : FileChunk) (waits : List Bool)
        (reader reader' : EnvelopeReader R)
        → read_envelope reader limit ≡ (reader', ok (file_chunk, codec.encode_chunk c))
        → apply_chunk r c ≡ (r', ok tt)
        → receive_loop codec sha256 r file_handle (false ∷ waits) reader
          ≡ receive_loop codec sha256 r' file_handle waits reader'
    unfolding receive_loop
    receive_piece r r' c waits reader reader' taken e =
        rw (taken, receive_loop, codec.chunk_law c, e)
          (ap (λ x. receive_loop codec sha256 x.0 file_handle waits (read_envelope reader limit).0)
              e
            ∙ ap (λ x. receive_loop codec sha256 r' file_handle waits x.0) taken)

    receive_last :
        (r : FileReassembly)
        → Progress file r (length file)
        → IsFrame limit announced
        → (waits : List Bool) (chunks : List (List ℕ)) (tail : List (Result R (List ℕ)))
          (buf rest : List ℕ)
        → buf ++ flatten chunks ≡ frame announced.0 announced.1 ++ rest
        → receive_loop codec sha256 r file_handle
            (false ∷ waits)
            (record { recv = reads chunks tail; buf = buf })
          ≡ some (ok (complete file))
    receive_last r progress fits waits chunks tail buf rest e =
        let (later, kept, taken, left) =
          read_envelope-reads announced.0 limit announced.1 fits chunks tail buf rest e in
        finished r progress waits _ _ taken

    receive_chunks :
        (fuel index : ℕ) (r : FileReassembly) (rest : List ℕ)
        → rest ≡ drop (index * chunk_size) file
        → length rest ≤ fuel
        → Progress file r (min (index * chunk_size) (length file))
        → All (IsFrame limit) (messages (chunks_from fuel index chunk_size rest))
        → (waits : List Bool) (chunks : List (List ℕ)) (tail : List (Result R (List ℕ)))
          (buf : List ℕ)
        → buf ++ flatten chunks ≡ frames (messages (chunks_from fuel index chunk_size rest))
        → receive_loop codec sha256 r file_handle
            (in_time (messages (chunks_from fuel index chunk_size rest)) waits)
            (record { recv = reads chunks tail; buf = buf })
          ≡ some (ok (complete file))
    unfolding chunks_from
    receive_chunks zero index r rest e bound progress fits waits chunks tail buf sent =
        let here =
          subst (Progress file r) {y = length file}
            (omega (arith, ap length e, length-drop (index * chunk_size) file)) progress in
        receive_last r here fits.0 waits chunks tail buf [] sent
    receive_chunks (suc fuel) index r [] e bound progress fits waits chunks tail buf sent =
        let here =
          subst (Progress file r) {y = length file}
            (omega (arith, ap length e, length-drop (index * chunk_size) file)) progress in
        receive_last r here fits.0 waits chunks tail buf [] sent
    receive_chunks (suc fuel) index r (b ∷ bs) e bound progress all_fit waits chunks tail buf sent =
        let rest : List ℕ = b ∷ bs in
        let c = piece index chunk_size rest in
        let nonempty : 0 < length rest = omega arith in
        let remains =
          remaining file rest index chunk_size small some_bytes chunk_small nonempty e in
        let at = offset-piece file rest index chunk_size small some_bytes chunk_small nonempty e in
        let len = length-piece file rest index chunk_size small some_bytes chunk_small nonempty e in
        let same = same-piece file rest index chunk_size small some_bytes chunk_small nonempty e in
        let slice =
          piece-IsSlice file rest index chunk_size small some_bytes chunk_small nonempty e in
        let turn = next_index file rest index chunk_size small some_bytes chunk_small nonempty e in
        let here = subst (Progress file r) {y = c.offset} (omega (arith, at, remains)) progress in
        let fits : c.offset + c.length ≤ length file = omega (arith, at, len, remains) in
        let accepted = next_accepted file r c here slice same fits small in
        let advanced =
          subst (Progress file (after r c)) {y = min (suc index * chunk_size) (length file)}
            (omega (arith, at, len, remains, turn))
            (next_Progress file r c here slice same fits small) in
        let others =
          messages (chunks_from fuel (suc index) chunk_size (drop (max chunk_size 1) rest)) in
        let (later, kept, taken, left) =
          read_envelope-reads file_chunk limit (codec.encode_chunk c) all_fit.0 chunks tail buf
            (frames others) sent in
        receive_piece r (after r c) c (in_time others waits) _ _ taken accepted
        ∙ receive_chunks fuel (suc index) (after r c) (drop (max chunk_size 1) rest)
            (drop-piece file rest index chunk_size small some_bytes chunk_small nonempty e)
            (omega (arith, length-drop (max chunk_size 1) rest)) advanced all_fit.1 waits later tail
            kept left

    -- The bytes that the sender writes arrive, cut in any way, and no wait of the receiver elapses. A
    -- receiver that is told the size of the file reassembles it and finds the checksum right, for
    -- every chunk size from 1 on that a `u32` holds where each of the sender's envelopes is within the
    -- limit of a `file` stream.
    pub receive-send :
        All (IsFrame (2 ^ 20)) (send_file_data codec sha256 file chunk_size)
        → (later : List Bool) (chunks : List (List ℕ)) (tail : List (Result R (List ℕ)))
        → write_all [] (send_file_data codec sha256 file chunk_size) ≡ some (flatten chunks)
        → receive_file codec sha256 file_handle
            (length file)
            (in_time (send_file_data codec sha256 file chunk_size) later)
            (Reader.new (reads chunks tail))
          ≡ some (ok (complete file))
    unfolding receive_file send_file_data Reader.new max_envelope_length
    receive-send fits later chunks tail written =
        let framed = write_all-frames limit (send_file_data codec sha256 file chunk_size) [] fits in
        let sent : flatten chunks ≡ frames (send_file_data codec sha256 file chunk_size) = cc in
        receive_chunks (length file) 0 (new (length file)) file
          (ap (λ n. drop n file) {x = 0} (omega arith)) (omega arith)
          (subst (Progress file (new (length file))) {x = 0} (omega arith) (new-Progress file)) fits
          later chunks tail [] sent
