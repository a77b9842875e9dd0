-- ===== src/Server/ConnError.antt =====
-- src/conn_error.rs: how a connection of the server ends, with the errors of the sessions that it
-- wraps (src/handshake.rs, auth.rs, video_session.rs, audio_session.rs, clipboard_session.rs,
-- feedback_session.rs, timesync.rs, encoder.rs).
use sardp.Base.{ℕ, List, Bool, true, false, String}
use sardp.Session.ReasonCode.{
  ReasonCode, transport_handshake_timeout, auth_timeout, auth_signature_invalid,
  protocol_unexpected_message,
}
use sardp.Wire.Reader.{StreamReadError, read, closed_early}
use sardp.Server.Foreign.{Foreign}

pub data AuthError : Type 0 where
  export_keying_material_failed signature_invalid : AuthError

pub data HandshakeError (F : Foreign) : Type 0 where
  quic : F.connection_error → HandshakeError F
  read_failed : StreamReadError F.read_error → HandshakeError F
  write : F.write_error → HandshakeError F
  decode : F.cbor_error → HandshakeError F
  protocol_violation : ReasonCode → HandshakeError F
  auth : AuthError → HandshakeError F
  auth_denied : HandshakeError F
  handshake_timeout : HandshakeError F
  authentication_timeout : HandshakeError F

pub data VideoError (F : Foreign) : Type 0 where
  quic : F.connection_error → VideoError F
  write : F.write_error → VideoError F
  read_failed : StreamReadError F.read_error → VideoError F
  decode : F.cbor_error → VideoError F
  protocol_violation : ReasonCode → VideoError F
  frame_length_mismatch : VideoError F
  wrong_stream_kind : VideoError F

pub data AudioError (F : Foreign) : Type 0 where
  quic : F.connection_error → AudioError F
  write : F.write_error → AudioError F
  read_failed : StreamReadError F.read_error → AudioError F
  decode : F.cbor_error → AudioError F
  protocol_violation : ReasonCode → AudioError F
  frame_length_mismatch : AudioError F
  wrong_stream_kind : AudioError F

pub data ClipboardSessionError (F : Foreign) : Type 0 where
  quic : F.connection_error → ClipboardSessionError F
  write : F.write_error → ClipboardSessionError F
  read_failed : StreamReadError F.read_error → ClipboardSessionError F
  decode : F.cbor_error → ClipboardSessionError F
  wrong_stream_kind : ClipboardSessionError F
  unexpected_type : ℕ → ClipboardSessionError F
  request_id_mismatch : ℕ → ℕ → ClipboardSessionError F
  response_timeout : ClipboardSessionError F

pub data ReadFeedbackError (F : Foreign) : Type 0 where
  quic : F.connection_error → ReadFeedbackError F
  read_failed : StreamReadError F.read_error → ReadFeedbackError F
  decode : F.cbor_error → ReadFeedbackError F
  wrong_stream_kind : ReadFeedbackError F
  unexpected_type : ℕ → ReadFeedbackError F

-- src/input_session.rs.
pub data ReadInputError (F : Foreign) : Type 0 where
  quic : F.connection_error → ReadInputError F
  read_failed : StreamReadError F.read_error → ReadInputError F
  decode : F.cbor_error → ReadInputError F
  wrong_stream_kind : ReadInputError F
  unexpected_type : ℕ → ReadInputError F

pub data TimeSyncError (F : Foreign) : Type 0 where
  write : F.write_error → TimeSyncError F
  read_failed : StreamReadError F.read_error → TimeSyncError F
  decode : F.cbor_error → TimeSyncError F
  unexpected_type : ℕ → TimeSyncError F

pub data EncodeError (F : Foreign) : Type 0 where
  spawn : F.io_error → EncodeError F
  write_stdin : F.io_error → EncodeError F
  wait : F.io_error → EncodeError F
  non_zero_exit : F.exit_status → List ℕ → EncodeError F
  empty_output : EncodeError F

pub data ConnError (F : Foreign) : Type 0 where
  handshake : HandshakeError F → ConnError F
  quic : F.connection_error → ConnError F
  write : F.write_error → ConnError F
  video : VideoError F → ConnError F
  feedback : ReadFeedbackError F → ConnError F
  violation : ReasonCode → ConnError F
  encode : EncodeError F → ConnError F
  join : F.join_error → ConnError F
  read_failed : StreamReadError F.read_error → ConnError F
  time_sync : TimeSyncError F → ConnError F
  audio : AudioError F → ConnError F
  clipboard : ClipboardSessionError F → ConnError F
  capture : String → ConnError F
  idle_timeout : ConnError F

unfoldable pub is_read_disconnect : {R : Type 0} → StreamReadError R → Bool
is_read_disconnect (read e) = true
is_read_disconnect closed_early = true
is_read_disconnect _ = false

module _ {F : Foreign} where
  -- `HandshakeError::reason_code`.
  unfoldable pub reason_code : HandshakeError F → ReasonCode
  reason_code handshake_timeout = transport_handshake_timeout
  reason_code authentication_timeout = auth_timeout
  reason_code (protocol_violation reason) = reason
  reason_code auth_denied = auth_signature_invalid
  reason_code (auth e) = auth_signature_invalid
  reason_code _ = protocol_unexpected_message

  unfoldable pub is_transport_disconnect : ConnError F → Bool
  is_transport_disconnect idle_timeout = true
  is_transport_disconnect (quic e) = true
  is_transport_disconnect (write e) = true
  is_transport_disconnect (read_failed e) = is_read_disconnect e
  is_transport_disconnect (feedback (ReadFeedbackError.quic e)) = true
  is_transport_disconnect (feedback (ReadFeedbackError.read_failed e)) = is_read_disconnect e
  is_transport_disconnect (video (VideoError.quic e)) = true
  is_transport_disconnect (video (VideoError.write e)) = true
  is_transport_disconnect (video (VideoError.read_failed e)) = is_read_disconnect e
  is_transport_disconnect (audio (AudioError.quic e)) = true
  is_transport_disconnect (audio (AudioError.write e)) = true
  is_transport_disconnect (audio (AudioError.read_failed e)) = is_read_disconnect e
  is_transport_disconnect (clipboard (ClipboardSessionError.quic e)) = true
  is_transport_disconnect (clipboard (ClipboardSessionError.write e)) = true
  is_transport_disconnect (clipboard (ClipboardSessionError.read_failed e)) = is_read_disconnect e
  is_transport_disconnect _ = false
