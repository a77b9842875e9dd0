-- ===== src/Session/ReasonCode.antt =====
-- src/reason_code.rs: the codes that messages carry for their reasons.
use sardp.Base.{ℕ}

pub record ReasonCode : Type 0 where
  pub domain : ℕ
  pub code : ℕ

abbrev new : ℕ → ℕ → ReasonCode
new domain code = record { domain = domain; code = code }

-- `domain = 0, code = 0`: no error.
abbrev pub no_reason : ReasonCode
no_reason = new 0 0

abbrev pub auth_timeout : ReasonCode
auth_timeout = new 1 1

abbrev pub auth_too_many_attempts : ReasonCode
auth_too_many_attempts = new 1 2

abbrev pub auth_signature_invalid : ReasonCode
auth_signature_invalid = new 1 3

abbrev auth_challenge_reuse : ReasonCode
auth_challenge_reuse = new 1 4

abbrev pub auth_reconnect_token_invalid : ReasonCode
auth_reconnect_token_invalid = new 1 5

abbrev auth_reconnect_token_expired : ReasonCode
auth_reconnect_token_expired = new 1 6

abbrev auth_reconnect_token_already_consumed : ReasonCode
auth_reconnect_token_already_consumed = new 1 7

abbrev pub policy_permission_denied : ReasonCode
policy_permission_denied = new 2 1

abbrev pub policy_permission_revoked : ReasonCode
policy_permission_revoked = new 2 2

abbrev policy_forced_disconnect : ReasonCode
policy_forced_disconnect = new 2 3

abbrev policy_max_session_duration_exceeded : ReasonCode
policy_max_session_duration_exceeded = new 2 4

abbrev pub policy_file_policy_rejected : ReasonCode
policy_file_policy_rejected = new 2 5

abbrev policy_clipboard_format_too_large : ReasonCode
policy_clipboard_format_too_large = new 2 6

abbrev pub transport_handshake_timeout : ReasonCode
transport_handshake_timeout = new 3 1

abbrev transport_idle_timeout : ReasonCode
transport_idle_timeout = new 3 2

abbrev transport_reconnect_timeout : ReasonCode
transport_reconnect_timeout = new 3 3

abbrev transport_video_recovery_timeout : ReasonCode
transport_video_recovery_timeout = new 3 4

abbrev pub transport_stream_stall_timeout : ReasonCode
transport_stream_stall_timeout = new 3 5

abbrev pub protocol_unexpected_message : ReasonCode
protocol_unexpected_message = new 4 1

abbrev protocol_unknown_core_message : ReasonCode
protocol_unknown_core_message = new 4 2

abbrev protocol_prologue_magic_mismatch : ReasonCode
protocol_prologue_magic_mismatch = new 4 3

abbrev protocol_unknown_stream_kind : ReasonCode
protocol_unknown_stream_kind = new 4 4

abbrev protocol_wrong_initiator : ReasonCode
protocol_wrong_initiator = new 4 5

abbrev protocol_session_setup_timeout : ReasonCode
protocol_session_setup_timeout = new 4 6

abbrev pub protocol_video_configuring_timeout : ReasonCode
protocol_video_configuring_timeout = new 4 7

abbrev protocol_frame_length_mismatch : ReasonCode
protocol_frame_length_mismatch = new 4 8

abbrev protocol_generation_mismatch : ReasonCode
protocol_generation_mismatch = new 4 9

abbrev pub protocol_file_chunk_overlap : ReasonCode
protocol_file_chunk_overlap = new 4 10

abbrev pub protocol_file_chunk_out_of_range : ReasonCode
protocol_file_chunk_out_of_range = new 4 11

abbrev pub protocol_file_incomplete_transfer : ReasonCode
protocol_file_incomplete_transfer = new 4 12

abbrev pub protocol_file_checksum_mismatch : ReasonCode
protocol_file_checksum_mismatch = new 4 13

abbrev os_decode_error : ReasonCode
os_decode_error = new 5 2
