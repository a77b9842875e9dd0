-- ===== src/Video/Messages.antt =====
-- src/messages.rs: the messages of a video stream, and their encoders and decoders, which are
-- parameters.
use sardp.Base.{ℕ, Bool, List, Result}

abbrev pub video_stream_generation : ℕ
video_stream_generation = 0x0005

abbrev pub encoder_config : ℕ
encoder_config = 0x0006

abbrev pub video_frame_header : ℕ
video_frame_header = 0x0007

abbrev pub video_frame_payload : ℕ
video_frame_payload = 0x0008

abbrev pub video_frame_flag_idr : ℕ
video_frame_flag_idr = 0x01

pub data VideoCodec : Type 0 where
  h264 : VideoCodec

pub data ChromaFormat : Type 0 where
  c420 c422 c444 : ChromaFormat

pub record VideoStreamGeneration : Type 0 where
  pub generation : ℕ
  pub config_id : ℕ

pub record EncoderConfig : Type 0 where
  pub codec : VideoCodec
  pub profile : ℕ
  pub chroma_format : ChromaFormat
  pub bit_depth : ℕ
  pub width : ℕ
  pub height : ℕ
  pub max_fps : ℕ
  pub tier : ℕ
  pub b_frames : ℕ
  pub server_cursor_excludable : Bool

pub record VideoFrameHeader : Type 0 where
  pub generation : ℕ
  pub frame_id : ℕ
  pub config_id : ℕ
  pub flags : ℕ
  pub capture_ts : ℕ
  pub encode_done_ts : ℕ
  pub width : ℕ
  pub height : ℕ
  pub payload_len : ℕ

pub record Bodies (D : Type 0) : Type 0 where
  pub encode_generation : VideoStreamGeneration → List ℕ
  pub decode_generation : List ℕ → Result D VideoStreamGeneration
  pub encode_config : EncoderConfig → List ℕ
  pub decode_config : List ℕ → Result D EncoderConfig
  pub encode_header : VideoFrameHeader → List ℕ
  pub decode_header : List ℕ → Result D VideoFrameHeader
