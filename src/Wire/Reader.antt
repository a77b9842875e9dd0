-- ===== src/Wire/Reader.antt =====
-- src/stream_reader.rs: frames read from a stream that arrives in pieces. The stream is the list
-- of what its successive reads give: bytes, or a read error of the transport (`R`); after the last
-- the stream is finished, and a read gives no bytes.
pub mod Chunks
pub mod Streams
pub mod Resumption
use sardp.Base.{
  ℕ, ◌+◌, ◌≡◌, refl, List, [], ◌∷◌, ◌++◌, Option, none, some, Result, ok, err, Outcome, drop,
}
use sardp.Wire.Envelope.{Envelope, EnvelopeError}
use sardp.Wire.Envelope
use sardp.Wire.Prologue.{StreamPrologue, PrologueError}
use sardp.Wire.Prologue

pub data StreamReadError (R : Type 0) : Type 0 where
  read : R → StreamReadError R
  closed_early : StreamReadError R
  prologue : PrologueError → StreamReadError R
  envelope : EnvelopeError → StreamReadError R

pub record EnvelopeReader (R : Type 0) : Type 0 where
  pub recv : List (Result R (List ℕ))
  pub buf : List ℕ

-- `EnvelopeReader::new`.
unfoldable pub new : {R : Type 0} → List (Result R (List ℕ)) → EnvelopeReader R
new recv = record { recv = recv; buf = [] }

module _ {R : Type 0} where
  -- One read, appended to the buffer.
  fill : List (Result R (List ℕ)) → List ℕ → Outcome (StreamReadError R) (EnvelopeReader R)
  fill [] buf = (record { recv = []; buf = buf }, err closed_early)
  fill (err e ∷ more) buf = (record { recv = more; buf = buf }, err (read e))
  fill (ok chunk ∷ more) buf = (record { recv = more; buf = buf ++ chunk }, ok tt)

  unfoldable fill_more : EnvelopeReader R → Outcome (StreamReadError R) (EnvelopeReader R)
  unfolding fill
  fill_more r = fill r.recv r.buf

module _ {R E A : Type 0} (parse : List ℕ → Result E (Option (A × ℕ)))
    (wrap : E → StreamReadError R) where
  -- One round of the loop: a frame is taken off the buffer, an error is passed on, and
  -- otherwise `waiting` goes on.
  abbrev settle :
      Result E (Option (A × ℕ))
      → List (Result R (List ℕ))
      → List ℕ
      → EnvelopeReader R × Result (StreamReadError R) A
      → EnvelopeReader R × Result (StreamReadError R) A
  settle (ok (some (a, consumed))) recv buf waiting =
      (record { recv = recv; buf = drop consumed buf }, ok a)
  settle (ok none) recv buf waiting = waiting
  settle (err e) recv buf waiting = (record { recv = recv; buf = buf }, err (wrap e))

  -- The loop of `read_prologue` and `read_envelope`, by recursion on what the stream still
  -- gives: each round but the last takes one read.
  unfoldable pub read_loop :
      List (Result R (List ℕ)) → List ℕ → EnvelopeReader R × Result (StreamReadError R) A
  read_loop [] buf = settle (parse buf) [] buf (record { recv = []; buf = buf }, err closed_early)
  read_loop (err e ∷ more) buf =
      settle (parse buf) (err e ∷ more) buf (record { recv = more; buf = buf }, err (read e))
  read_loop (ok chunk ∷ more) buf =
      let rest = read_loop more (buf ++ chunk) in settle (parse buf) (ok chunk ∷ more) buf rest

module _ {R : Type 0} where
  unfoldable pub read_prologue :
      EnvelopeReader R → EnvelopeReader R × Result (StreamReadError R) StreamPrologue
  unfolding read_loop
  read_prologue r = read_loop Prologue.parse prologue r.recv r.buf

  abbrev pub type_and_payload :
      EnvelopeReader R × Result (StreamReadError R) Envelope
      → EnvelopeReader R × Result (StreamReadError R) (ℕ × List ℕ)
  type_and_payload (r, ok e) = (r, ok (e.type_raw, e.payload))
  type_and_payload (r, err x) = (r, err x)

  unfoldable pub read_envelope :
      EnvelopeReader R → ℕ → EnvelopeReader R × Result (StreamReadError R) (ℕ × List ℕ)
  unfolding read_loop
  read_envelope r max_length =
      type_and_payload (read_loop (λ buf. Envelope.parse buf max_length) envelope r.recv r.buf)

-- `write_envelope` onto a stream that has taken `sent` so far. `none` is a panic.
unfoldable pub write_envelope : List ℕ → ℕ → List ℕ → Option (List ℕ)
write_envelope sent type_raw payload = elim (Envelope.encode type_raw payload []) [
  | none ↦ none
  | some buf ↦ some (sent ++ buf)
]
