-- ===== src/Wire/Reader/Chunks.antt =====
-- Reading does not depend on how the stream is cut into reads.
use sardp.Base.{
  ℕ, ◌≤◌, ◌<◌, ◌^◌, ◌≡◌, ap, sym, ◌∙◌, inl, inr, List, [], ◌∷◌, ◌++◌, map, append_assoc, append-nil,
  Option, some, none, arith, length, length-append, take, drop, take-append-drop,
  take-append_length, drop-append_length, take-append_le, drop-append_le, Bool-cases, ltb, ltb→lt,
  Result, ok, err,
}
use mathlib.Core.List.{flatten}
use sardp.Wire.Varint.{max_value}
use sardp.Wire.StreamKind.{StreamKind}
use sardp.Wire.Envelope.{Envelope, EnvelopeError}
use sardp.Wire.Envelope
use sardp.Wire.Envelope.RoundTrip.{frame, parse-frame, encode-frame}
use sardp.Wire.Envelope.RoundTrip as EnvelopeRoundTrip
use sardp.Wire.Prologue.{StreamPrologue}
use sardp.Wire.Prologue
use sardp.Wire.Prologue.RoundTrip.{opening, parse-opening}
use sardp.Wire.Prologue.RoundTrip as PrologueRoundTrip
use sardp.Wire.Reader.{
  StreamReadError, EnvelopeReader, prologue, envelope, read_loop, read_prologue, read_envelope,
}

-- The reads of a stream that gives these chunks, and then whatever `tail` gives.
abbrev pub reads :
    {R : Type 0} → List (List ℕ) → List (Result R (List ℕ)) → List (Result R (List ℕ))
reads chunks tail = map ok chunks ++ tail

-- What two ways to cut one text have in common.
front_all :
    (buf c w rest : List ℕ)
    → buf ++ c ≡ w ++ rest
    → length w ≤ length buf
    → (buf ≡ w ++ drop (length w) buf) × (drop (length w) buf ++ c ≡ rest)
front_all buf c w rest e h =
    let front : take (length w) buf ≡ w =
      sym (take-append_le (length w) buf c h)
      ∙ ap (take (length w)) e
      ∙ take-append_length w rest in
    (
      sym (take-append-drop (length w) buf) ∙ ap (λ (x : List ℕ). x ++ drop (length w) buf) front,
      sym (drop-append_le (length w) buf c h) ∙ ap (drop (length w)) e ∙ drop-append_length w rest,
    )

front_cut :
    (buf c w rest : List ℕ)
    → buf ++ c ≡ w ++ rest
    → length buf ≤ length w
    → buf ≡ take (length buf) w
front_cut buf c w rest e h =
    sym (take-append_length buf c) ∙ ap (take (length buf)) e ∙ take-append_le (length buf) w rest h

module _ {R E A : Type 0} (parse : List ℕ → Result E (Option (A × ℕ)))
    (wrap : E → StreamReadError R) where
  -- A frame that stands in the buffer is found with no read.
  pub read_loop_found :
      (recv : List (Result R (List ℕ))) (buf : List ℕ) (a : A) (n : ℕ)
      → parse buf ≡ ok (some (a, n))
      → read_loop parse wrap recv buf ≡ (record { recv = recv; buf = drop n buf }, ok a)
  unfolding read_loop
  read_loop_found [] buf a n h = rw h
  read_loop_found (err e ∷ more) buf a n h = rw h
  read_loop_found (ok chunk ∷ more) buf a n h = rw h

  read_loop_waits :
      (more : List (Result R (List ℕ))) (buf chunk : List ℕ)
      → parse buf ≡ ok none
      → read_loop parse wrap (ok chunk ∷ more) buf ≡ read_loop parse wrap more (buf ++ chunk)
  unfolding read_loop
  read_loop_waits more buf chunk h = rw h

  -- The frame `a` of the bytes before `rest` was read, and nothing else was consumed.
  abbrev Found :
      A
      → List ℕ
      → List (Result R (List ℕ))
      → EnvelopeReader R × Result (StreamReadError R) A
      → Type 0
  Found a rest tail r =
      (later : List (List ℕ)) × (kept : List ℕ) × (r
        ≡ (record { recv = reads later tail; buf = kept }, ok a))
      × (kept ++ flatten later ≡ rest)

  -- `w` holds one frame: it is recognised whatever follows, and no cut of it is.
  module _ (w : List ℕ) (a : A)
      (whole : (rest : List ℕ) → parse (w ++ rest) ≡ ok (some (a, length w)))
      (cut : (n : ℕ) → n < length w → parse (take n w) ≡ ok none) where
    in_buffer :
        (chunks : List (List ℕ)) (tail : List (Result R (List ℕ))) (buf rest : List ℕ)
        → buf ++ flatten chunks ≡ w ++ rest
        → length w ≤ length buf
        → Found a rest tail (read_loop parse wrap (reads chunks tail) buf)
    in_buffer chunks tail buf rest e enough =
        let (shape, left) = front_all buf (flatten chunks) w rest e enough in
        (
          chunks,
          drop (length w) buf,
          read_loop_found (reads chunks tail) buf a (length w)
              (ap parse shape ∙ whole (drop (length w) buf)),
          left,
        )

    pub read_loop-reads :
        (chunks : List (List ℕ)) (tail : List (Result R (List ℕ))) (buf rest : List ℕ)
        → buf ++ flatten chunks ≡ w ++ rest
        → Found a rest tail (read_loop parse wrap (reads chunks tail) buf)
    unfolding flatten
    read_loop-reads [] tail buf rest e =
        in_buffer [] tail buf rest e
          (omega (arith, ap length e, ap length (append-nil buf), length-append w rest))
    read_loop-reads (c ∷ cs) tail buf rest e =
        let joined : (buf ++ c) ++ flatten cs ≡ w ++ rest = append_assoc buf c (flatten cs) ∙ e in
        let (later, kept, found, left) = read_loop-reads cs tail (buf ++ c) rest joined in
        elim (Bool-cases (ltb (length buf) (length w))) [
          | inr enough ↦ in_buffer (c ∷ cs) tail buf rest e (ground arith)
          | inl short ↦
              let none_yet : parse buf ≡ ok none =
                ap parse (front_cut buf (c ++ flatten cs) w rest e (ground arith))
                ∙ cut (length buf) (ltb→lt _ _ short) in
              (later, kept, read_loop_waits (reads cs tail) buf c none_yet ∙ found, left)
        ]

-- A message that fits its type, the limit of its stream and the length field.
abbrev pub IsFrame : ℕ → ℕ × List ℕ → Type 0
IsFrame max_length m = (m.0 < 2 ^ 16) × (length m.1 ≤ max_length) × (length m.1 ≤ max_value)

module _ {R : Type 0} where
  -- `read_envelope` gives the message at the front of the stream, however the stream is cut, and
  -- leaves the bytes behind it.
  pub read_envelope-reads :
      (t max_length : ℕ) (payload : List ℕ)
      → IsFrame max_length (t, payload)
      → (chunks : List (List ℕ)) (tail : List (Result R (List ℕ))) (buf rest : List ℕ)
      → buf ++ flatten chunks ≡ frame t payload ++ rest
      → (later : List (List ℕ)) × (kept : List ℕ) × (read_envelope
            (record { recv = reads chunks tail; buf = buf })
            max_length
          ≡ (record { recv = reads later tail; buf = kept }, ok (t, payload)))
        × (kept ++ flatten later ≡ rest)
  unfolding read_envelope
  read_envelope-reads t max_length payload (ht, hm, hv) chunks tail buf rest e =
      let (later, kept, found, left) =
        read_loop-reads (λ b. Envelope.parse b max_length) envelope (frame t payload)
          (record { type_raw = t; payload = payload })
          (λ more. parse-frame t max_length payload more ht hm hv)
          (λ n cut. EnvelopeRoundTrip.parse-take t max_length n payload hm hv cut) chunks tail buf
          rest e in
      (later, kept, rw found, left)

  -- `read_prologue` likewise.
  pub read_prologue-reads :
      (k : StreamKind) (version context_id : ℕ)
      → context_id ≤ max_value
      → (chunks : List (List ℕ)) (tail : List (Result R (List ℕ))) (buf rest : List ℕ)
      → buf ++ flatten chunks ≡ opening k version context_id ++ rest
      → (later : List (List ℕ)) × (kept : List ℕ) × (read_prologue
            (record { recv = reads chunks tail; buf = buf })
          ≡ (
            record { recv = reads later tail; buf = kept },
            ok (record { kind = k; version = version; context_id = context_id }),
          ))
        × (kept ++ flatten later ≡ rest)
  unfolding read_prologue
  read_prologue-reads k version c h chunks tail buf rest e =
      read_loop-reads Prologue.parse prologue (opening k version c)
        (record { kind = k; version = version; context_id = c })
        (λ more. parse-opening k version c more h)
        (λ n cut. PrologueRoundTrip.parse-take k version c n h cut) chunks tail buf rest e
