-- ===== src/Tests/Instances.antt =====
-- A stream of one instance, written, read, and interrupted.
use sardp.Base.{
  ℕ, ◌≡◌, refl, append-nil, false, none, some, List, [], ◌∷◌, ◌++◌, map, All, Result, ok, err,
  arith,
}
use mathlib.Core.List.{flatten}
use sardp.Wire.StreamKind.{StreamKind, max_envelope_length}
use sardp.Wire.Prologue.RoundTrip.{opening}
use sardp.Wire.Varint
use sardp.Wire.Envelope
use sardp.Wire.Reader.{read_envelope}
use sardp.Wire.Reader.Chunks.{reads}
use sardp.Wire.Reader.Streams.{frames}
use sardp.Server.Foreign.{Foreign}
use sardp.Video.InstanceSm
use sardp.Video.Messages.{
  VideoCodec, ChromaFormat, VideoStreamGeneration, EncoderConfig, VideoFrameHeader, Bodies,
}
use sardp.Video.Session.{accept_intro}
use sardp.Video.Session.Reading.{VideoFrameReader, read_next_frame}
use sardp.Video.Session.Frames.{Frame, as_sent, IsSendable, read_all}
use sardp.Video.Session.Opening.{Instance, IsOpenable, unopened, sending, intro_of}
use sardp.Video.Session.Introduction.{incoming}
use sardp.Video.Session.Streaming.{write_instance, accept_intro-open_video_instance}
use sardp.Video.Session.Resumption.{waiting, arrives, read_next_frame-resumes}

abbrev plain : Foreign
plain = record {
  connection_error = ℕ;
  read_error = ℕ;
  write_error = ℕ;
  cbor_error = ℕ;
  join_error = ℕ;
  io_error = ℕ;
  exit_status = ℕ;
}

abbrev config : EncoderConfig
config = record {
  codec = VideoCodec.h264;
  profile = 66;
  chroma_format = ChromaFormat.c420;
  bit_depth = 8;
  width = 4;
  height = 2;
  max_fps = 30;
  tier = 4;
  b_frames = 0;
  server_cursor_excludable = false;
}

abbrev one : Instance
one = record {
  monitor_id = 0;
  generation = 3;
  config_id = 1;
  config = config;
  payload = 0 ∷ 0 ∷ 1 ∷ [];
  capture_ts = 5;
  encode_done_ts = 6;
}

-- The header of frame `n` of this instance.
abbrev header : ℕ → ℕ → VideoFrameHeader
header n len = record {
  generation = 3;
  frame_id = n;
  config_id = 1;
  flags = 1;
  capture_ts = 5;
  encode_done_ts = 6;
  width = 4;
  height = 2;
  payload_len = len;
}

abbrev decode_generation : List ℕ → Result ℕ VideoStreamGeneration
decode_generation (g ∷ c ∷ []) = ok (record { generation = g; config_id = c })
decode_generation _ = err 0

abbrev decode_header : List ℕ → Result ℕ VideoFrameHeader
decode_header (n ∷ len ∷ []) = ok (header n len)
decode_header _ = err 0

-- An encoding of what this instance says.
abbrev bodies : Bodies ℕ
bodies = record {
  encode_generation = λ m. m.generation ∷ m.config_id ∷ [];
  decode_generation = decode_generation;
  encode_config = λ m. [];
  decode_config = λ b. ok config;
  encode_header = λ m. m.frame_id ∷ m.payload_len ∷ [];
  decode_header = decode_header;
}

abbrev sent_frames : List Frame
sent_frames = (header 1 0, 7 ∷ 8 ∷ []) ∷ []

one-IsOpenable : IsOpenable bodies one
unfolding max_envelope_length
one-IsOpenable = record {
  monitor_fits = omega arith;
  generation_fits = (omega arith, omega arith, omega arith);
  config_fits = (omega arith, omega arith, omega arith);
  header_fits = (omega arith, omega arith, omega arith);
  payload_fits = (omega arith, omega arith, omega arith);
  generation_decoded = refl;
  config_decoded = refl;
  header_decoded = refl;
}

frames-IsSendable : All (IsSendable bodies) sent_frames
unfolding max_envelope_length
frames-IsSendable = (
  record {
    header_fits = (omega arith, omega arith, omega arith);
    payload_fits = (omega arith, omega arith, omega arith);
    decoded = refl;
  },
  tt,
)

abbrev bytes : List ℕ
bytes =
    opening StreamKind.video 1 0
    ++ frames (write_instance {F = plain} bodies one sent_frames unopened).0.sent

one_read : flatten (bytes ∷ []) ≡ bytes
unfolding flatten
one_read = append-nil bytes

accept_intro-open_video_instance_example :
    ((write_instance {F = plain} bodies one sent_frames unopened).1 ≡ ok tt)
    × (mid : List (List ℕ)) × (kept : List ℕ) × (accept_intro {F = plain} bodies
          (incoming bodies one InstanceSm.new (bytes ∷ []) [] [])
        ≡ (incoming bodies one sending mid [] kept, ok (intro_of one)))
    × (later : List (List ℕ)) × (kept' : List ℕ) × (read_all {F = plain} bodies 1
          (record { reader = record { recv = reads mid []; buf = kept }; pending_header = none })
        ≡ (
          record { reader = record { recv = reads later []; buf = kept' }; pending_header = none },
          ok (map as_sent sent_frames),
        ))
    × (kept' ++ flatten later ≡ [])
accept_intro-open_video_instance_example =
    accept_intro-open_video_instance {F = plain} bodies one sent_frames (bytes ∷ []) []
      one-IsOpenable frames-IsSendable one_read

-- A reader that has a header parked, and nothing of the payload.
abbrev parked : VideoFrameReader plain
parked = record { reader = record { recv = []; buf = [] }; pending_header = some (header 1 2) }

parked_waits : (read_next_frame bodies parked).1 ≡ err waiting
unfolding read_next_frame read_envelope Envelope.parse Varint.decode
parked_waits = refl

read_next_frame-resumes_example :
    read_next_frame {F = plain} bodies (arrives parked (ok (3 ∷ []) ∷ []))
    ≡ read_next_frame bodies
        (arrives (read_next_frame {F = plain} bodies parked).0 (ok (3 ∷ []) ∷ []))
read_next_frame-resumes_example =
    read_next_frame-resumes {F = plain} bodies (ok (3 ∷ []) ∷ []) parked parked_waits
