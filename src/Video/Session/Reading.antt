-- ===== src/Video/Session/Reading.antt =====
-- src/video_session.rs: `VideoFrameReader`, the frames of an instance behind its introduction.
use sardp.Base.{ℕ, not, Option, none, some, List, Result, err, map_err, length, ◌==◌, if◌then◌else◌}
use sardp.Base.Action.{Action, ◌>>=◌, ◌>>◌, pure, fail, try, modify}
use sardp.Wire.StreamKind.{StreamKind, max_envelope_length}
use sardp.Wire.Reader.{EnvelopeReader, read_envelope}
use sardp.Server.Foreign.{Foreign}
use sardp.Server.ConnError.{VideoError}
use sardp.Video.Messages.{VideoFrameHeader, Bodies, video_frame_header, video_frame_payload}
use sardp.Video.Session.{unexpected}

pub record VideoFrameReader (F : Foreign) : Type 0 where
  pub reader : EnvelopeReader F.read_error
  pub pending_header : Option VideoFrameHeader

module _ {F : Foreign} where
  abbrev next_envelope : Action (VideoFrameReader F) (VideoError F) (ℕ × List ℕ)
  next_envelope s =
      let (reader, result) = read_envelope s.reader (max_envelope_length StreamKind.video) in
      (record s { reader = reader }, map_err VideoError.read_failed result)

  unfoldable pub check_payload :
      VideoFrameHeader
      → ℕ × List ℕ
      → Action (VideoFrameReader F) (VideoError F) (VideoFrameHeader × List ℕ)
  check_payload header (type_raw, frame_payload) =
      if not (type_raw == video_frame_payload)
      then fail unexpected
      else if not (length frame_payload == header.payload_len)
      then fail VideoError.frame_length_mismatch
      else pure (header, frame_payload)

  unfoldable pub read_payload :
      VideoFrameHeader → Action (VideoFrameReader F) (VideoError F) (VideoFrameHeader × List ℕ)
  unfolding check_payload
  read_payload header = do
    modify (λ s. record s { pending_header = some header })
    envelope ← next_envelope
    modify (λ s. record s { pending_header = none })
    check_payload header envelope

  module _ (bodies : Bodies F.cbor_error) where
    unfoldable pub header_of : ℕ × List ℕ → Result (VideoError F) VideoFrameHeader
    header_of (type_raw, payload) =
        if not (type_raw == video_frame_header)
        then err unexpected
        else map_err VideoError.decode (bodies.decode_header payload)

    -- The header: the one that is parked, or the next.
    unfoldable pub take_header :
        Option VideoFrameHeader → Action (VideoFrameReader F) (VideoError F) VideoFrameHeader
    unfolding header_of
    take_header (some header) = pure header
    take_header none = do envelope ← next_envelope; try (header_of envelope)

    -- A future that is dropped leaves the state of one whose stream gives nothing more.
    unfoldable pub read_next_frame :
        Action (VideoFrameReader F) (VideoError F) (VideoFrameHeader × List ℕ)
    unfolding take_header read_payload
    read_next_frame s =
        (take_header s.pending_header >>= read_payload) (record s { pending_header = none })
