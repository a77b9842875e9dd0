-- ===== src/Wire/Reader/Streams.antt =====
-- A whole stream: what one side writes with `write_envelope`, the other side reads, in order.
use sardp.Base.{
  ℕ, zero, suc, ◌≤◌, ◌≡◌, refl, ap, sym, ◌∙◌, List, [], ◌∷◌, ◌++◌, append_assoc, append-nil, Option,
  some, none, length, All, Result, ok, err,
}
use mathlib.Core.List.{flatten}
use sardp.Wire.Varint.{max_value}
use sardp.Wire.Envelope.RoundTrip.{frame, encode-frame}
use sardp.Wire.Reader.{StreamReadError, EnvelopeReader, new, read_envelope, write_envelope}
use sardp.Wire.Reader.Chunks.{reads, IsFrame, read_envelope-reads}

-- Messages written one after the other onto a stream that has taken `sent`.
abbrev pub write_all : List ℕ → List (ℕ × List ℕ) → Option (List ℕ)
write_all sent [] = some sent
write_all sent (m ∷ ms) = elim (write_envelope sent m.0 m.1) [
  | none ↦ none
  | some sent' ↦ write_all sent' ms
]

abbrev Read : Type 0 → Type 0 → Type 0
Read R A = EnvelopeReader R × Result (StreamReadError R) A

module _ {R : Type 0} where
  abbrev prepend : ℕ × List ℕ → Read R (List (ℕ × List ℕ)) → Read R (List (ℕ × List ℕ))
  prepend m (r, ok ms) = (r, ok (m ∷ ms))
  prepend m (r, err e) = (r, err e)

  abbrev go_on :
      Read R (ℕ × List ℕ)
      → (EnvelopeReader R → Read R (List (ℕ × List ℕ)))
      → Read R (List (ℕ × List ℕ))
  go_on (r, ok m) rest = prepend m (rest r)
  go_on (r, err e) rest = (r, err e)

  -- `n` messages read one after the other; the first error ends it.
  abbrev pub read_many : ℕ → ℕ → EnvelopeReader R → Read R (List (ℕ × List ℕ))
  read_many max_length zero r = (r, ok [])
  read_many max_length (suc n) r = go_on (read_envelope r max_length) (read_many max_length n)

-- The frames of the messages.
abbrev pub frames : List (ℕ × List ℕ) → List ℕ
frames [] = []
frames (m ∷ ms) = frame m.0 m.1 ++ frames ms

write_envelope-frame :
    (t : ℕ) (payload sent : List ℕ)
    → length payload ≤ max_value
    → write_envelope sent t payload ≡ some (sent ++ frame t payload)
unfolding write_envelope
write_envelope-frame t payload sent h = rw (encode-frame t payload [] h, write_envelope)

pub write_all-frames :
    (max_length : ℕ) (ms : List (ℕ × List ℕ)) (sent : List ℕ)
    → All (IsFrame max_length) ms
    → write_all sent ms ≡ some (sent ++ frames ms)
write_all-frames max_length [] sent h = ap some (sym (append-nil sent))
write_all-frames max_length (m ∷ ms) sent h =
    rw (write_envelope-frame m.0 m.1 sent h.0.2, write_all)
      (write_all-frames max_length ms (sent ++ frame m.0 m.1) h.1
        ∙ ap some (append_assoc sent (frame m.0 m.1) (frames ms)))

module _ {R : Type 0} where
  read_many-frames :
      (max_length : ℕ) (ms : List (ℕ × List ℕ)) (chunks : List (List ℕ))
      (tail : List (Result R (List ℕ))) (buf rest : List ℕ)
      → All (IsFrame max_length) ms
      → buf ++ flatten chunks ≡ frames ms ++ rest
      → (later : List (List ℕ)) × (kept : List ℕ) × (read_many max_length
            (length ms)
            (record { recv = reads chunks tail; buf = buf })
          ≡ (record { recv = reads later tail; buf = kept }, ok ms))
        × (kept ++ flatten later ≡ rest)
  read_many-frames max_length [] chunks tail buf rest h e = (chunks, buf, refl, e)
  read_many-frames max_length (m ∷ ms) chunks tail buf rest h e =
      let (mid, kept, first, left) =
        read_envelope-reads m.0 max_length m.1 h.0 chunks tail buf (frames ms ++ rest)
          (e ∙ append_assoc (frame m.0 m.1) (frames ms) rest) in
      let (later, kept', others, left') =
        read_many-frames max_length ms mid tail kept rest h.1 left in
      (
        later,
        kept',
        ap (λ r. go_on r (read_many max_length (length ms))) first ∙ ap (prepend m) others,
        left',
      )

  -- What `write_envelope` wrote onto one stream, message after message, `read_envelope` reads in
  -- the same order, however the transport cuts the bytes into reads, and it leaves no byte of
  -- them.
  pub read_many-write_all :
      (max_length : ℕ) (ms : List (ℕ × List ℕ)) (chunks : List (List ℕ))
      (tail : List (Result R (List ℕ)))
      → All (IsFrame max_length) ms
      → flatten chunks ≡ frames ms
      → (write_all [] ms ≡ some (frames ms))
        × (later : List (List ℕ)) × (kept : List ℕ) × (read_many max_length
              (length ms)
              (new (reads chunks tail))
            ≡ (record { recv = reads later tail; buf = kept }, ok ms))
        × (kept ++ flatten later ≡ [])
  unfolding new
  read_many-write_all max_length ms chunks tail h e =
      let (later, kept, got, none_left) =
        read_many-frames max_length ms chunks tail [] [] h (e ∙ sym (append-nil (frames ms))) in
      (write_all-frames max_length ms [] h, later, kept, got, none_left)
