-- ===== src/Video/Session.antt =====
-- src/video_session.rs: one video stream, from both sides. What was written is a list of envelopes
-- behind the prologue, the oldest first; what the transport answers to each call is an argument.
pub mod Reading
pub mod Resumption
pub mod Frames
pub mod Opening
pub mod Introduction
pub mod Streaming
use sardp.Base.{
  ℕ, Bool, true, false, not, Option, none, some, List, [], ◌∷◌, ◌++◌, Result, ok, err, map_err,
  length, ◌==◌, if◌then◌else◌, Outcome,
}
use sardp.Base.Action.{Action, ◌>>=◌, ◌>>◌, pure, fail, try, modify}
use sardp.Session.ReasonCode.{protocol_unexpected_message}
use sardp.Wire.StreamKind
use sardp.Wire.StreamKind.{StreamKind, max_envelope_length}
use sardp.Wire.Prologue.{StreamPrologue}
use sardp.Wire.Reader
use sardp.Wire.Reader.{StreamReadError, EnvelopeReader, read_prologue, read_envelope}
use sardp.Server.Foreign.{Foreign}
use sardp.Server.ConnError.{VideoError}
use sardp.Video.InstanceSm
use sardp.Video.InstanceSm.{
  VideoInstanceSm, ProtocolViolation, on_prologue_sent, on_generation_sent, on_encoder_config_sent,
  on_first_idr_sent,
}
use sardp.Video.Messages.{
  VideoStreamGeneration, EncoderConfig, VideoFrameHeader, Bodies, video_stream_generation,
  encoder_config, video_frame_header, video_frame_payload, video_frame_flag_idr,
}

-- A stream that is written: whether its prologue was, and its envelopes.
pub record Outgoing : Type 0 where
  pub sm : VideoInstanceSm
  pub opened : List StreamPrologue
  pub sent : List (ℕ × List ℕ)

pub record Incoming (F : Foreign) : Type 0 where
  pub sm : VideoInstanceSm
  pub reader : EnvelopeReader F.read_error

pub record VideoInstanceIntro : Type 0 where
  pub monitor_id : ℕ
  pub generation : VideoStreamGeneration
  pub encoder_config : EncoderConfig
  pub first_frame_header : VideoFrameHeader
  pub first_frame_payload : List ℕ

abbrev pub Written : Foreign → Type 0
Written F = Result F.write_error (Unit {0})

-- The answers to the calls of `open_video_instance`, in their order.
pub record OpenRun (F : Foreign) : Type 0 where
  pub opened : Result F.connection_error (Unit {0})
  pub prologue_written : Written F
  pub generation_written : Written F
  pub config_written : Written F
  pub header_written : Written F
  pub payload_written : Written F

abbrev is_video : StreamKind → Bool
is_video StreamKind.video = true
is_video _ = false

module _ {F : Foreign} where
  abbrev violation : ProtocolViolation → VideoError F
  violation v = VideoError.protocol_violation v.reason

  abbrev pub unexpected : VideoError F
  unexpected = VideoError.protocol_violation protocol_unexpected_message

  abbrev put : ℕ → List ℕ → Written F → Action Outgoing (VideoError F) (Unit {0})
  put type_raw payload written s =
      (record s { sent = s.sent ++ (type_raw, payload) ∷ [] }, map_err VideoError.write written)

  abbrev on_sm :
      (VideoInstanceSm → Outcome ProtocolViolation VideoInstanceSm)
      → Action Outgoing (VideoError F) (Unit {0})
  on_sm f s = let (sm, result) = f s.sm in (record s { sm = sm }, map_err violation result)

  abbrev put_prologue : ℕ → Written F → Action Outgoing (VideoError F) (Unit {0})
  put_prologue monitor_id written s = (
    record s {
      opened = record { kind = StreamKind.video; version = 1; context_id = monitor_id } ∷ s.opened;
    },
    map_err VideoError.write written,
  )

  module _ (bodies : Bodies F.cbor_error) where
    unfoldable pub open_video_instance :
        OpenRun F
        → ℕ
        → ℕ
        → ℕ
        → EncoderConfig
        → List ℕ
        → ℕ
        → ℕ
        → Action Outgoing (VideoError F) (Unit {0})
    open_video_instance run monitor_id generation config_id config idr_payload capture_ts
          encode_done_ts =
        do
          try (map_err VideoError.quic run.opened)
          put_prologue monitor_id run.prologue_written
          on_sm on_prologue_sent
          put video_stream_generation
              (bodies.encode_generation (record { generation = generation; config_id = config_id }))
              run.generation_written
          on_sm on_generation_sent
          put encoder_config (bodies.encode_config config) run.config_written
          on_sm on_encoder_config_sent
          put video_frame_header
              (bodies.encode_header (record {
                generation = generation;
                frame_id = 0;
                config_id = config_id;
                flags = video_frame_flag_idr;
                capture_ts = capture_ts;
                encode_done_ts = encode_done_ts;
                width = config.width;
                height = config.height;
                payload_len = length idr_payload;
              }))
              run.header_written
          put video_frame_payload idr_payload run.payload_written
          on_sm on_first_idr_sent

    -- The arguments before the payload are a header's fields but for the length, which is set here.
    unfoldable pub send_video_frame :
        VideoFrameHeader
        → List ℕ
        → Written F
        → Written F
        → Action Outgoing (VideoError F) (Unit {0})
    send_video_frame fields payload header_written payload_written = do
      put video_frame_header (bodies.encode_header (record fields { payload_len = length payload }))
          header_written
      put video_frame_payload payload payload_written

  abbrev reading :
      {A : Type 0}
      → (EnvelopeReader F.read_error
          → EnvelopeReader F.read_error × Result (StreamReadError F.read_error) A)
      → Action (Incoming F) (VideoError F) A
  reading f s =
      let (reader, result) = f s.reader in
      (record s { reader = reader }, map_err VideoError.read_failed result)

  abbrev received :
      (VideoInstanceSm → Outcome ProtocolViolation VideoInstanceSm)
      → Action (Incoming F) (VideoError F) (Unit {0})
  received f s = let (sm, result) = f s.sm in (record s { sm = sm }, map_err violation result)

  -- The next envelope, which has to be of this type.
  unfoldable pub expect : ℕ → Action (Incoming F) (VideoError F) (List ℕ)
  expect wanted = do
    (type_raw, payload) ← reading (λ r. read_envelope r (max_envelope_length StreamKind.video))
    if not (type_raw == wanted) then fail unexpected else pure payload

  unfoldable pub accept_prologue : Action (Incoming F) (VideoError F) ℕ
  accept_prologue = do
    prologue ← reading read_prologue
    if not (is_video prologue.kind) then fail VideoError.wrong_stream_kind else pure tt
    received on_prologue_sent
    pure prologue.context_id

  module _ (bodies : Bodies F.cbor_error) where
    unfoldable pub accept_setup :
        Action (Incoming F) (VideoError F) (VideoStreamGeneration × EncoderConfig)
    unfolding expect
    accept_setup = do
      generation_bytes ← expect video_stream_generation
      generation ← try (map_err VideoError.decode (bodies.decode_generation generation_bytes))
      received on_generation_sent
      config_bytes ← expect encoder_config
      config ← try (map_err VideoError.decode (bodies.decode_config config_bytes))
      received on_encoder_config_sent
      pure (generation, config)

    unfoldable pub accept_first_frame :
        Action (Incoming F) (VideoError F) (VideoFrameHeader × List ℕ)
    unfolding expect
    accept_first_frame = do
      header_bytes ← expect video_frame_header
      header ← try (map_err VideoError.decode (bodies.decode_header header_bytes))
      frame_payload ← expect video_frame_payload
      if not (length frame_payload == header.payload_len)
          then fail VideoError.frame_length_mismatch
          else pure tt
      received on_first_idr_sent
      pure (header, frame_payload)

    -- `accept_intro`, on a stream that was accepted.
    unfoldable pub accept_intro : Action (Incoming F) (VideoError F) VideoInstanceIntro
    unfolding accept_prologue accept_setup accept_first_frame
    accept_intro = do
      monitor_id ← accept_prologue
      (generation, config) ← accept_setup
      (header, frame_payload) ← accept_first_frame
      pure (record {
        monitor_id = monitor_id;
        generation = generation;
        encoder_config = config;
        first_frame_header = header;
        first_frame_payload = frame_payload;
      })
