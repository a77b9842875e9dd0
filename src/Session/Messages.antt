-- ===== src/Session/Messages.antt =====
-- src/messages.rs: the type ids and the messages that the modelled components exchange. Bodies
-- travel as CBOR, whose encoding is the business of a library.
use sardp.Base.{ℕ, List}
use sardp.Session.ReasonCode.{ReasonCode}

abbrev pub client_hello : ℕ
client_hello = 0x0001

abbrev pub server_hello : ℕ
server_hello = 0x0002

abbrev pub auth_pubkey : ℕ
auth_pubkey = 0x0003

abbrev pub auth_result : ℕ
auth_result = 0x0004

abbrev pub session_reauthenticate : ℕ
session_reauthenticate = 0x000e

abbrev pub file_chunk : ℕ
file_chunk = 0x0018

abbrev pub file_transfer_complete : ℕ
file_transfer_complete = 0x0019

pub data AuthStatus : Type 0 where
  ok mfa_required denied : AuthStatus

pub record AuthResult : Type 0 where
  pub status : AuthStatus
  pub reason : ReasonCode
  pub session_id : List ℕ
  pub reconnect_token : List ℕ
  pub granted_permissions : ℕ

pub data ReauthenticateReason : Type 0 where
  reconnect permission_refresh : ReauthenticateReason

pub record SessionReauthenticate : Type 0 where
  pub reason : ReauthenticateReason
  pub prior_session_id : List ℕ
  pub reconnect_token : List ℕ

pub record PermissionUpdate : Type 0 where
  pub granted_permissions : ℕ
  pub immediate_revoke : ℕ

pub data FileTransferDirection : Type 0 where
  upload download : FileTransferDirection

pub record FileChunk : Type 0 where
  pub offset : ℕ
  pub length : ℕ
  pub content : List ℕ

pub record FileTransferError : Type 0 where
  pub file_handle : ℕ
  pub reason : ReasonCode

pub data KeyframeReason : Type 0 where
  decode_error reconnect manual : KeyframeReason

pub record KeyframeRequest : Type 0 where
  pub reason : KeyframeReason

pub data ImeMode : Type 0 where
  client_side remote_side : ImeMode

pub record ImeModeChange : Type 0 where
  pub mode : ImeMode
  pub effective_after_event_id : ℕ
