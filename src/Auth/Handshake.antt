-- ===== src/Auth/Handshake.antt =====
-- src/handshake.rs: both sides of a fresh handshake on the control stream. An envelope that is
-- written is an entry of `sent`, the newest first; what the transport answers is an argument, as
-- are the random bytes and whether a phase's time limit elapsed (what an elapsed phase had already
-- written is not told). CBOR is a parameter.
pub mod Sides
pub mod Agreement
pub mod Trust
use sardp.Base.{
  ℕ, ◌≡◌, Bool, true, false, List, [], ◌∷◌, String, Result, ok, err, map_err, not, bit_or,
  replicate, if◌then◌else◌, Outcome,
}
use sardp.Base.Eq.{bytes_eq}
use sardp.Base.Action.{Action, ◌>>=◌, ◌>>◌, pure, fail, try, get}
use sardp.Session.ReasonCode.{ReasonCode, no_reason, auth_signature_invalid}
use sardp.Session.Messages.{
  client_hello, server_hello, auth_pubkey, auth_result, AuthStatus, AuthResult, denied,
  mfa_required,
}
use sardp.Session.ConnectionSm
use sardp.Session.ConnectionSm.{
  ConnectionSm, ProtocolViolation, check_message, complete_handshake, complete_authentication,
  record_auth_failure,
}
use sardp.Permission.PermissionSet.{view, input_keyboard, input_mouse}
use sardp.Server.Foreign.{Foreign}
use sardp.Server.ConnError.{
  HandshakeError, AuthError, signature_invalid, read_failed, write, decode, protocol_violation,
  auth, auth_denied, handshake_timeout, authentication_timeout,
}
use sardp.Wire.Reader.{StreamReadError}
use sardp.Auth.{
  Crypto, Exporter, channel_binding_context, compute_exporter, sign_exporter, verify_exporter,
}

pub data AuthMethod : Type 0 where
  public_key passkey password totp : AuthMethod

pub record ClientHello : Type 0 where
  pub client_name : String
  pub client_version : String
  pub capabilities : List ℕ
  pub auth_methods : List AuthMethod

-- `accepted_combinations` as pairs of the methods and the priority.
pub record ServerHello : Type 0 where
  pub server_name : String
  pub server_version : String
  pub capabilities : List ℕ
  pub accepted_combinations : List (List AuthMethod × ℕ)
  pub auth_challenge : List ℕ

pub record AuthPubkey : Type 0 where
  pub user_id : String
  pub device_id : String
  pub public_key : List ℕ
  pub signature : List ℕ

pub record HandshakeCodec (D : Type 0) : Type 0 where
  pub encode_client_hello : ClientHello → List ℕ
  pub encode_server_hello : ServerHello → List ℕ
  pub decode_server_hello : List ℕ → Result D ServerHello
  pub encode_auth_pubkey : AuthPubkey → List ℕ
  pub decode_auth_pubkey : List ℕ → Result D AuthPubkey
  pub encode_auth_result : AuthResult → List ℕ
  pub decode_auth_result : List ℕ → Result D AuthResult

pub record HandshakeOutcome : Type 0 where
  pub session_id : List ℕ
  pub reconnect_token : List ℕ
  pub granted_permissions : ℕ
  pub user_id : String

pub record HandshakeState : Type 0 where
  pub sm : ConnectionSm
  pub sent : List (ℕ × List ℕ)

-- An envelope that was read: its type and its payload.
abbrev pub Envelope : Foreign → Type 0
Envelope F = Result (StreamReadError F.read_error) (ℕ × List ℕ)

abbrev Written : Foreign → Type 0
Written F = Result F.write_error (Unit {0})

abbrev pub HandshakeAction : Foreign → Type 0 → Type 0
HandshakeAction F A = Action HandshakeState (HandshakeError F) A

module _ {F : Foreign} where
  unfoldable pub check : ℕ → HandshakeAction F (Unit {0})
  check type_id s = (s, map_err (λ v. protocol_violation v.reason) (check_message s.sm type_id))

  -- A method of the connection's state machine, with its violation converted.
  abbrev pub on_sm :
      (ConnectionSm → Outcome ProtocolViolation ConnectionSm) → HandshakeAction F (Unit {0})
  on_sm f s =
      let (sm, result) = f s.sm in
      (record s { sm = sm }, map_err (λ v. protocol_violation v.reason) result)

  unfoldable pub write_envelope : ℕ → List ℕ → Written F → HandshakeAction F (Unit {0})
  write_envelope type_raw payload written s =
      (record s { sent = (type_raw, payload) ∷ s.sent }, map_err write written)

  -- A phase under its time limit.
  abbrev pub within :
      {A : Type 0} → Bool → HandshakeError F → HandshakeAction F A → HandshakeAction F A
  within elapsed timeout phase = if elapsed then fail timeout else phase

-- What the transport and the clock answer in one run of each side, in the order of the calls.
pub record ClientRun (F : Foreign) : Type 0 where
  pub prologue_written : Written F
  pub hello_written : Written F
  pub hello_read : Envelope F
  pub hello_elapsed : Bool
  pub auth_written : Written F
  pub result_read : Envelope F
  pub auth_elapsed : Bool

pub record ServerRun (F : Foreign) : Type 0 where
  pub auth_challenge : List ℕ
  pub hello_written : Written F
  pub hello_elapsed : Bool
  pub auth_read : Envelope F
  pub auth_elapsed : Bool
  pub session_id : List ℕ
  pub reconnect_token : List ℕ
  pub result_written : Written F

abbrev pub granted_at_first : ℕ
granted_at_first = bit_or (bit_or view input_keyboard) input_mouse

abbrev pub result_granted : List ℕ → List ℕ → AuthResult
result_granted session_id reconnect_token = record {
  status = AuthStatus.ok;
  reason = no_reason;
  session_id = session_id;
  reconnect_token = reconnect_token;
  granted_permissions = granted_at_first;
}

abbrev pub result_denied : AuthResult
result_denied = record {
  status = denied;
  reason = auth_signature_invalid;
  session_id = replicate 16 0;
  reconnect_token = replicate 32 0;
  granted_permissions = 0;
}
