-- ===== src/Video/Session/Opening.antt =====
-- The opening of an instance, from the server's writes to the client's introduction.
use sardp.Base.{ℕ, ◌≤◌, ◌≡◌, refl, true, false, List, [], ◌∷◌, length, ok}
use sardp.Base.Action.{try}
use sardp.Wire.Varint.{max_value}
use sardp.Wire.StreamKind.{StreamKind}
use sardp.Wire.Reader.Chunks.{IsFrame}
use sardp.Server.Foreign.{Foreign}
use sardp.Video.InstanceSm
use sardp.Video.InstanceSm.{
  VideoInstanceSm, configuring, streaming, on_prologue_sent, on_generation_sent,
  on_encoder_config_sent, on_first_idr_sent,
}
use sardp.Video.Messages.{
  VideoStreamGeneration, EncoderConfig, VideoFrameHeader, Bodies, video_stream_generation,
  encoder_config, video_frame_header, video_frame_payload, video_frame_flag_idr,
}
use sardp.Video.Session.{Outgoing, VideoInstanceIntro, OpenRun, open_video_instance}
use sardp.Video.Session.Frames.{limit}

-- A transport that takes it all.
abbrev pub delivered : {F : Foreign} → OpenRun F
delivered = record {
  opened = ok tt;
  prologue_written = ok tt;
  generation_written = ok tt;
  config_written = ok tt;
  header_written = ok tt;
  payload_written = ok tt;
}

abbrev pub unopened : Outgoing
unopened = record { sm = InstanceSm.new; opened = []; sent = [] }

abbrev pub sending : VideoInstanceSm
sending = record { state = streaming; sent_generation = true; sent_encoder_config = true }

-- The arguments of `open_video_instance`.
pub record Instance : Type 0 where
  pub monitor_id : ℕ
  pub generation : ℕ
  pub config_id : ℕ
  pub config : EncoderConfig
  pub payload : List ℕ
  pub capture_ts : ℕ
  pub encode_done_ts : ℕ

abbrev pub announced : Instance → VideoStreamGeneration
announced x = record { generation = x.generation; config_id = x.config_id }

abbrev pub first_header : Instance → VideoFrameHeader
first_header x = record {
  generation = x.generation;
  frame_id = 0;
  config_id = x.config_id;
  flags = video_frame_flag_idr;
  capture_ts = x.capture_ts;
  encode_done_ts = x.encode_done_ts;
  width = x.config.width;
  height = x.config.height;
  payload_len = length x.payload;
}

abbrev pub configured : VideoInstanceSm
configured = record { state = configuring; sent_generation = false; sent_encoder_config = false }

abbrev pub set_up : VideoInstanceSm
set_up = record { state = configuring; sent_generation = true; sent_encoder_config = true }

module _ {D : Type 0} (bodies : Bodies D) (x : Instance) where
  abbrev pub generation_bytes : List ℕ
  generation_bytes = bodies.encode_generation (announced x)

  abbrev pub config_bytes : List ℕ
  config_bytes = bodies.encode_config x.config

  abbrev pub header_bytes : List ℕ
  header_bytes = bodies.encode_header (first_header x)

  -- The prologue and the four envelopes fit the stream, and the bodies decode to what was encoded.
  pub record IsOpenable : Type 0 where
    pub monitor_fits : x.monitor_id ≤ max_value
    pub generation_fits : IsFrame limit (video_stream_generation, generation_bytes)
    pub config_fits : IsFrame limit (encoder_config, config_bytes)
    pub header_fits : IsFrame limit (video_frame_header, header_bytes)
    pub payload_fits : IsFrame limit (video_frame_payload, x.payload)
    pub generation_decoded : bodies.decode_generation generation_bytes ≡ ok (announced x)
    pub config_decoded : bodies.decode_config config_bytes ≡ ok x.config
    pub header_decoded : bodies.decode_header header_bytes ≡ ok (first_header x)

  abbrev pub messages : List (ℕ × List ℕ)
  messages =
      (video_stream_generation, generation_bytes)
      ∷ (encoder_config, config_bytes)
      ∷ (video_frame_header, header_bytes)
      ∷ (video_frame_payload, x.payload)
      ∷ []

abbrev pub intro_of : Instance → VideoInstanceIntro
intro_of x = record {
  monitor_id = x.monitor_id;
  generation = announced x;
  encoder_config = x.config;
  first_frame_header = first_header x;
  first_frame_payload = x.payload;
}

module _ {F : Foreign} (bodies : Bodies F.cbor_error) (x : Instance) where
  pub open_video_instance-sends :
      open_video_instance bodies
        (delivered {F = F})
        x.monitor_id
        x.generation
        x.config_id
        x.config
        x.payload
        x.capture_ts
        x.encode_done_ts
        unopened
      ≡ (
        record {
          sm = sending;
          opened = record { kind = StreamKind.video; version = 1; context_id = x.monitor_id } ∷ [];
          sent = messages bodies x;
        },
        ok tt,
      )
  unfolding open_video_instance try InstanceSm.new on_prologue_sent on_generation_sent
      on_encoder_config_sent on_first_idr_sent
  open_video_instance-sends = refl
