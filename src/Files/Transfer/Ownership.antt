-- ===== src/Files/Transfer/Ownership.antt =====
-- Who may open a `file` stream, and what a received file was checked for.
use sardp.Base.{
  ℕ, ◌≤◌, ◌≡◌, ◌⊎◌, ◌↔◌, refl, sym, ap, ◌∙◌, inl, inr, Bool, true, false, some, ◌^◌, List, [], ◌∷◌,
  String, Result, ok, err, arith, Bool-cases, ◌==◌,
}
use sardp.Base.Eq.{nat_eq, bytes_eq, bytes_beq_iff}
use sardp.Base.Map
use sardp.Session.Messages.{FileTransferDirection, FileChunk, file_chunk, file_transfer_complete}
use sardp.Wire.StreamKind.{file, max_envelope_length}
use sardp.Wire.Prologue.{StreamPrologue}
use sardp.Wire.Reader.{EnvelopeReader, read_envelope}
use sardp.Files.HandleStore.{FileHandleStore, FileHandleRecord, validate}
use sardp.Files.HandleStore.Binding.{validate_iff}
use sardp.Files.Reassembly.{FileReassembly, apply_chunk, is_complete, verify_checksum}
use sardp.Files.Transfer.{FileCodec, complete, finish, receive_loop, accept_file_stream_verified}

cases : {E A : Type 0} (x : Result E A) → ((a : A) × (x ≡ ok a)) ⊎ ((e : E) × (x ≡ err e))
cases (ok a) = inl (a, refl)
cases (err e) = inr (e, refl)

module _ {R D : Type 0} where
  -- A `file` stream is accepted exactly if its prologue says that it is one and names a handle
  -- that was issued to this session, this user and this direction and has not expired.
  pub accept_iff :
      (store : FileHandleStore) (prologue : StreamPrologue) (id : List ℕ) (user : String)
      (d : FileTransferDirection) (now h : ℕ)
      → (accept_file_stream_verified {R = R} {D = D} store prologue id user d now ≡ ok h) ↔ (
          (prologue.kind ≡ file)
          × (prologue.context_id ≡ h)
          × ((s : FileHandleRecord) × (Map.lookup h store ≡ some s)
              × (s.session_id ≡ id)
              × (s.user_id ≡ user)
              × (s.direction ≡ d)
              × (now ≤ s.expiry_ts)))
  unfolding accept_file_stream_verified
  accept_iff store prologue id user d now h =
      elim (cases (validate store prologue.context_id id user d now)) [
        | inl (s, e) ↦
            let bound = (validate_iff store prologue.context_id s id user d now).0 e in
            (
              λ a.
                  let same : prologue.context_id ≡ h = ground arith in
                  (
                    ground arith,
                    same,
                    (
                      s,
                      ap (λ n. Map.lookup n store) (sym same) ∙ bound.0,
                      bound.1,
                      bound.2,
                      bound.3,
                      bound.4,
                    ),
                  ),
              λ (k, same, t). ground arith,
            )
        | inr (x, e) ↦ (
          λ a. ground arith,
          λ (k, same, (t, found, mine, named, way, live)).
              let valid =
                (validate_iff store prologue.context_id t id user d now).1
                  (ap (λ n. Map.lookup n store) same ∙ found, mine, named, way, live) in
              ground arith,
        )
      ]

module _ (sha256 : List ℕ → List ℕ) where
  -- What `finish` hands over was complete, and its checksum was the announced one.
  finish-complete :
      (r : FileReassembly) (file_handle : ℕ) (checksum bytes : List ℕ)
      → finish sha256 r file_handle checksum ≡ complete bytes
      → (bytes ≡ r.contents) × (is_complete r ≡ true) × (checksum ≡ sha256 bytes)
  unfolding finish verify_checksum
  finish-complete r file_handle checksum bytes h =
      let whole : is_complete r ≡ true = ground arith in
      let same : bytes ≡ r.contents = ground arith in
      let found : sha256 r.contents ≡ checksum =
        ground (arith, bytes_beq_iff (sha256 r.contents) checksum) in
      (same, whole, sym found ∙ ap sha256 (sym same))

module _ {R D : Type 0} (codec : FileCodec D) where
  -- A receiver takes chunks off the stream, each read within the limit of a `file` stream, decoded
  -- and accepted, until it reads a `FileTransferComplete`: what it has gathered by then, and the
  -- checksum that the message names.
  pub data Gathers
      : FileReassembly → List Bool → EnvelopeReader R → FileReassembly → List ℕ → Type 0 where
    completed :
        (r : FileReassembly) (waits : List Bool) (reader reader' : EnvelopeReader R)
        (payload checksum : List ℕ)
        → read_envelope reader (2 ^ 20) ≡ (reader', ok (file_transfer_complete, payload))
        → codec.decode_complete payload ≡ ok checksum
        → Gathers r (false ∷ waits) reader r checksum
    gathered :
        (r r' last : FileReassembly) (waits : List Bool) (reader reader' : EnvelopeReader R)
        (payload checksum : List ℕ) (chunk : FileChunk)
        → read_envelope reader (2 ^ 20) ≡ (reader', ok (file_chunk, payload))
        → codec.decode_chunk payload ≡ ok chunk
        → apply_chunk r chunk ≡ (r', ok tt)
        → Gathers r' waits reader' last checksum
        → Gathers r (false ∷ waits) reader last checksum

  module _ (sha256 : List ℕ → List ℕ) where
    -- Whatever the stream gives and the clock says, a file is handed over only as what was gathered
    -- from the stream up to a `FileTransferComplete`, with every byte received, and only if the
    -- checksum that the message names is that of the bytes which are handed over.
    pub handed_over :
        (waits : List Bool) (reader : EnvelopeReader R) (r : FileReassembly) (file_handle : ℕ)
        (bytes : List ℕ)
        → receive_loop codec sha256 r file_handle waits reader ≡ some (ok (complete bytes))
        → (last : FileReassembly) × Gathers r waits reader last (sha256 bytes)
          × (bytes ≡ last.contents)
          × (is_complete last ≡ true)
    unfolding receive_loop max_envelope_length
    handed_over [] reader r file_handle bytes h = ground arith
    handed_over (true ∷ waits) reader r file_handle bytes h = ground arith
    handed_over (false ∷ waits) reader r file_handle bytes h =
        let step = read_envelope reader (2 ^ 20) in
        elim (cases step.1) [
          | inr (x, e) ↦ ground arith
          | inl ((type_raw, payload), e) ↦
              let taken : step ≡ (step.0, ok (type_raw, payload)) = ap (λ x. (step.0, x)) e in
              elim (Bool-cases (type_raw == file_chunk)) [
                | inl t ↦ elim (cases (codec.decode_chunk payload)) [
                  | inr (x, d) ↦ ground arith
                  | inl (chunk, d) ↦
                      let (r', applied) = apply_chunk r chunk in
                      let accepted : applied ≡ ok tt = ground arith in
                      let next : receive_loop codec sha256 r' file_handle waits step.0
                          ≡ some (ok (complete bytes)) =
                        ground arith in
                      let (last, gathers, same, whole) =
                        handed_over waits step.0 r' file_handle bytes next in
                      let kind : type_raw ≡ file_chunk = ground arith in
                      (
                        last,
                        gathered r r' last waits reader step.0 payload (sha256 bytes) chunk
                            (taken ∙ ap (λ k. (step.0, ok (k, payload))) kind) d
                            (ap (λ x. (r', x)) accepted) gathers,
                        same,
                        whole,
                      )
                ]
                | inr t ↦ elim (cases (codec.decode_complete payload)) [
                  | inr (x, d) ↦ ground arith
                  | inl (checksum, d) ↦
                      let kind : type_raw ≡ file_transfer_complete = ground arith in
                      let done : finish sha256 r file_handle checksum ≡ complete bytes =
                        ground arith in
                      let (same, whole, matched) =
                        finish-complete sha256 r file_handle checksum bytes done in
                      (
                        r,
                        completed r waits reader step.0 payload (sha256 bytes)
                            (taken ∙ ap (λ k. (step.0, ok (k, payload))) kind) (d ∙ ap ok matched),
                        same,
                        whole,
                      )
                ]
              ]
        ]
