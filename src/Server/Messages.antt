-- ===== src/Server/Messages.antt =====
-- src/messages.rs: the messages that the server's loop reads and writes, their type ids, and the
-- decoders of CBOR bodies, which are parameters.
use sardp.Base.{ℕ, List, String, Result}
use sardp.Base.Int.{ℤ}
use sardp.Session.ReasonCode.{ReasonCode}
use sardp.Session.Messages.{FileTransferDirection, KeyframeRequest, PermissionUpdate}

abbrev pub time_sync_request : ℕ
time_sync_request = 0x0009

abbrev pub session_close : ℕ
session_close = 0x000d

abbrev pub file_transfer_request : ℕ
file_transfer_request = 0x0015

pub record TimeSyncRequest : Type 0 where
  pub t1 : ℕ

pub record TimeSyncResponse : Type 0 where
  pub t1 : ℕ
  pub t2 : ℕ
  pub t3 : ℕ

pub record TransportFeedback : Type 0 where
  pub last_received_frame_id : ℕ
  pub last_decoded_frame_id : ℕ
  pub last_displayed_frame_id : ℕ
  pub frames_received : ℕ
  pub frames_dropped : ℕ
  pub receive_bitrate_bps : ℕ
  pub decode_delay_us : ℕ
  pub display_delay_us : ℕ
  pub target_latency_us : ℕ
  pub client_queue_delay_us : ℕ

pub record AudioSyncFeedback : Type 0 where
  pub audio_played_ts : ℕ
  pub video_displayed_ts : ℕ
  pub drift_ppm : ℤ

-- src/feedback_session.rs.
pub data FeedbackMessage : Type 0 where
  transport : TransportFeedback → FeedbackMessage
  audio_sync : AudioSyncFeedback → FeedbackMessage
  keyframe : KeyframeRequest → FeedbackMessage

pub record FileTransferRequest : Type 0 where
  pub request_id : ℕ
  pub direction : FileTransferDirection
  pub virtual_path : String
  pub declared_size : ℕ

pub record FileTransferAccept : Type 0 where
  pub request_id : ℕ
  pub file_handle : ℕ
  pub resolved_size : ℕ
  pub expiry_ts : ℕ

pub record FileTransferReject : Type 0 where
  pub request_id : ℕ
  pub reason : ReasonCode

pub data FormatNamespace : Type 0 where
  mime win32 macos_uti : FormatNamespace

pub record ClipboardFormatEntry : Type 0 where
  pub namespace : FormatNamespace
  pub format_id : String

pub record ClipboardFormats : Type 0 where
  pub request_id : ℕ
  pub formats : List ClipboardFormatEntry

pub record ClipboardRequest : Type 0 where
  pub request_id : ℕ
  pub namespace : FormatNamespace
  pub format_id : String

-- What the loop writes on the control stream.
pub data ControlMessage : Type 0 where
  time_sync_response : TimeSyncResponse → ControlMessage
  file_transfer_reject : FileTransferReject → ControlMessage
  file_transfer_accept : FileTransferAccept → ControlMessage
  keep_alive : ControlMessage
  permission_update : PermissionUpdate → ControlMessage
  closes_session : ReasonCode → ControlMessage

-- `messages::decode` at the types that the loop reads on the control stream.
pub record Codec (D : Type 0) : Type 0 where
  pub time_sync_request : List ℕ → Result D TimeSyncRequest
  pub file_transfer_request : List ℕ → Result D FileTransferRequest
