-- ===== src/Video/Session/Resumption.antt =====
-- A read of a frame that is dropped while it waits, and started again.
use sardp.Base.{
  ℕ, ◌≡◌, refl, sym, ap, ◌∙◌, ◌⊎◌, inl, inr, Option, none, some, List, ◌++◌, Result, ok, err, arith,
}
use sardp.Base.Action.{continue_with, try}
use sardp.Wire.Reader.Resumption.{on, result_cases, read_envelope-resumes, read_envelope-extends}
use sardp.Wire.Reader.{StreamReadError, EnvelopeReader, read_envelope, closed_early}
use sardp.Server.Foreign.{Foreign}
use sardp.Server.ConnError.{VideoError}
use sardp.Video.Messages.{Bodies, VideoFrameHeader}
use sardp.Video.Session.Reading.{
  VideoFrameReader, check_payload, take_header, read_payload, read_next_frame, header_of,
}
use sardp.Wire.StreamKind.{StreamKind, max_envelope_length}

abbrev limit : ℕ
limit = max_envelope_length StreamKind.video

module _ {F : Foreign} where
  abbrev pub waiting : VideoError F
  waiting = VideoError.read_failed closed_early

  -- What more arrives, for a reader of frames.
  abbrev pub arrives : VideoFrameReader F → List (Result F.read_error (List ℕ)) → VideoFrameReader F
  arrives s recv = record s { reader = on s.reader recv }

  -- A reader of frames with nothing parked.
  abbrev fresh : EnvelopeReader F.read_error → VideoFrameReader F
  fresh r = record { reader = r; pending_header = none }

  -- What `read_payload` does with what the reader gave.
  abbrev with_payload :
      VideoFrameHeader
      → EnvelopeReader F.read_error × Result (StreamReadError F.read_error) (ℕ × List ℕ)
      → VideoFrameReader F × Result (VideoError F) (VideoFrameHeader × List ℕ)
  with_payload header (reader, ok m) =
      check_payload header m (record { reader = reader; pending_header = none })
  with_payload header (reader, err e) =
      (record { reader = reader; pending_header = some header }, err (VideoError.read_failed e))

  read_payload-with :
      (header : VideoFrameHeader) (s : VideoFrameReader F)
      → read_payload header s ≡ with_payload header (read_envelope s.reader limit)
  unfolding read_payload
  read_payload-with header s = elim (result_cases (read_envelope s.reader limit).1) [
    | inl (m, e) ↦ rw e refl
    | inr (x, e) ↦ rw e refl
  ]

  check_payload-not_waiting :
      (header : VideoFrameHeader) (m : ℕ × List ℕ) (s : VideoFrameReader F)
      → (check_payload header m s).1 ≡ err waiting
      → ⊥
  unfolding check_payload
  check_payload-not_waiting header m s h = ground arith

  module _ (bodies : Bodies F.cbor_error) where
    header_of-not_waiting : (m : ℕ × List ℕ) → header_of bodies m ≡ err waiting → ⊥
    unfolding header_of
    header_of-not_waiting m h = elim (result_cases (bodies.decode_header m.1)) [
      | inl (header, e) ↦ ground arith
      | inr (x, e) ↦ ground arith
    ]

    -- What `read_next_frame`, with nothing parked, does with what the reader gave.
    abbrev with_header :
        EnvelopeReader F.read_error × Result (StreamReadError F.read_error) (ℕ × List ℕ)
        → VideoFrameReader F × Result (VideoError F) (VideoFrameHeader × List ℕ)
    with_header (reader, ok m) =
        continue_with (record { reader = reader; pending_header = none }, header_of bodies m)
          read_payload
    with_header (reader, err e) =
        (record { reader = reader; pending_header = none }, err (VideoError.read_failed e))

    read_next_frame-with :
        (r : EnvelopeReader F.read_error)
        → read_next_frame bodies (record { reader = r; pending_header = none })
          ≡ with_header (read_envelope r limit)
    unfolding read_next_frame take_header try
    read_next_frame-with r = elim (result_cases (read_envelope r limit).1) [
      | inl (m, e) ↦ rw e refl
      | inr (x, e) ↦ rw e refl
    ]

    header_cases :
        (r : EnvelopeReader F.read_error) (o : Result (VideoError F) VideoFrameHeader)
        → (continue_with (fresh r, o) read_payload).1 ≡ err waiting
        → (o ≡ err waiting)
          ⊎ ((header : VideoFrameHeader) × (o ≡ ok header)
              × ((read_payload header (fresh r)).1 ≡ err waiting))
    header_cases r (ok header) k = inr (header, refl, k)
    header_cases r (err x) k = inl (let same : x ≡ waiting = ground arith in ap err same)

    module _ (ys : List (Result F.read_error (List ℕ))) where
      read_payload-resumes :
          (r : EnvelopeReader F.read_error) (header : VideoFrameHeader)
          → let start = fresh r in
            (read_payload header start).1 ≡ err waiting
            → read_payload header (arrives start (r.recv ++ ys))
              ≡ read_next_frame bodies (arrives (read_payload header start).0 ys)
      unfolding read_next_frame take_header
      read_payload-resumes r header h =
          resumes (read_envelope r limit) refl
            (sym (ap (λ q. q.1) (read_payload-with header (fresh r))) ∙ h)
          ∙ ap (λ q. read_next_frame bodies (arrives q.0 ys))
              (sym (read_payload-with header (fresh r)))
        where
          resumes :
              (p : EnvelopeReader F.read_error × Result (StreamReadError F.read_error) (ℕ × List ℕ))
              → read_envelope r limit ≡ p
              → (with_payload header p).1 ≡ err waiting
              → read_payload header (record { reader = on r (r.recv ++ ys); pending_header = none })
                ≡ read_next_frame bodies (arrives (with_payload header p).0 ys)
          resumes (left, ok m) e k = absurd (check_payload-not_waiting header m (fresh left) k)
          resumes (left, err x) e k =
              read_payload-with header (fresh (on r (r.recv ++ ys)))
              ∙ ap (with_payload header) (
                  read_envelope-resumes limit r ys
                    (ap (λ q. q.1) e ∙ (let same : x ≡ closed_early = ground arith in ap err same))
                  ∙ ap (λ q. read_envelope (on q.0 ys) limit) e)
              ∙ sym (read_payload-with header (fresh (on left ys)))

      resumes_parked :
          (r : EnvelopeReader F.read_error) (header : VideoFrameHeader)
          → let s : VideoFrameReader F = record { reader = r; pending_header = some header } in
            (read_next_frame bodies s).1 ≡ err waiting
            → read_next_frame bodies (arrives s (r.recv ++ ys))
              ≡ read_next_frame bodies (arrives (read_next_frame bodies s).0 ys)
      unfolding read_next_frame take_header
      resumes_parked r header k = read_payload-resumes r header k

      from_header :
          (r : EnvelopeReader F.read_error)
          (p : EnvelopeReader F.read_error × Result (StreamReadError F.read_error) (ℕ × List ℕ))
          → read_envelope r limit ≡ p
          → (with_header p).1 ≡ err waiting
          → with_header (read_envelope (on r (r.recv ++ ys)) limit)
            ≡ read_next_frame bodies (arrives (with_header p).0 ys)
      from_header r (left, err x) e k =
          ap with_header (
            read_envelope-resumes limit r ys
              (ap (λ q. q.1) e ∙ (let same : x ≡ closed_early = ground arith in ap err same))
            ∙ ap (λ q. read_envelope (on q.0 ys) limit) e)
          ∙ sym (read_next_frame-with (on left ys))
      from_header r (left, ok m) e k = elim (header_cases left (header_of bodies m) k) [
        | inl failed ↦ absurd (header_of-not_waiting m failed)
        | inr (header, found, h) ↦
            let next =
              λ (q : EnvelopeReader F.read_error) (o : Result (VideoError F) VideoFrameHeader).
                continue_with (fresh q, o) read_payload in
            ap with_header (
              read_envelope-extends limit r ys m (ap (λ q. q.1) e)
              ∙ ap (λ q. (on q.0 (q.0.recv ++ ys), ok m)) e)
            ∙ ap (next (on left (left.recv ++ ys))) found
            ∙ read_payload-resumes left header h
            ∙ ap (λ o. read_next_frame bodies (arrives (next left o).0 ys)) (sym found)
      ]

      -- A read of a frame that is still waiting for bytes and is dropped, wherever it waits, and
      -- another one when more has arrived: together they are one read of it all.
      pub read_next_frame-resumes :
          (s : VideoFrameReader F)
          → (read_next_frame bodies s).1 ≡ err waiting
          → read_next_frame bodies (arrives s (s.reader.recv ++ ys))
            ≡ read_next_frame bodies (arrives (read_next_frame bodies s).0 ys)
      read_next_frame-resumes s h = resumes s.reader s.pending_header h
        where
          resumes :
              (r : EnvelopeReader F.read_error) (pending : Option VideoFrameHeader)
              → let s : VideoFrameReader F = record { reader = r; pending_header = pending } in
                (read_next_frame bodies s).1 ≡ err waiting
                → read_next_frame bodies (arrives s (r.recv ++ ys))
                  ≡ read_next_frame bodies (arrives (read_next_frame bodies s).0 ys)
          resumes r none k =
              read_next_frame-with (on r (r.recv ++ ys))
              ∙ from_header r (read_envelope r limit) refl
                  (sym (ap (λ q. q.1) (read_next_frame-with r)) ∙ k)
              ∙ ap (λ q. read_next_frame bodies (arrives q.0 ys)) (sym (read_next_frame-with r))
          resumes r (some header) k = resumes_parked r header k
