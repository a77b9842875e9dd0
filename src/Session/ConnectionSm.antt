-- ===== src/Session/ConnectionSm.antt =====
-- src/connection_sm.rs: the state machine of a connection. A method on `&mut self` returns the
-- new state and its result; the clock is the caller's.
pub mod Invariant
pub mod Trace
use sardp.Base.{
  ℕ, ◌+◌, ◌%◌, ◌^◌, List, [], ◌∷◌, Bool, true, false, not, ◌||◌, Result, ok, err, Outcome, ◌==◌,
  leb, if◌then◌else◌,
}
use sardp.Session.ReasonCode.{
  ReasonCode, auth_too_many_attempts, auth_signature_invalid, protocol_unexpected_message,
}
use sardp.Session.Messages.{client_hello, server_hello, auth_pubkey}

abbrev auth_attempt_limit : ℕ
auth_attempt_limit = 3

pub data ConnectionState : Type 0 where
  handshaking authenticating authenticated active suspended : ConnectionState
  closing : ReasonCode → ConnectionState

pub record ProtocolViolation : Type 0 where
  pub reason : ReasonCode

pub record ConnectionSm : Type 0 where
  pub state : ConnectionState
  pub auth_attempts : ℕ

unfoldable pub new : ConnectionSm
new = record { state = handshaking; auth_attempts = 0 }

unfoldable allowed_in_handshaking : ℕ → Bool
allowed_in_handshaking t = t == client_hello || t == server_hello

unfoldable allowed_in_authenticating : ℕ → Bool
allowed_in_authenticating t = t == auth_pubkey

unfoldable allowed_in_active : ℕ → Bool
allowed_in_active t = not (t == client_hello || t == server_hello)

abbrev pub violation : ProtocolViolation
violation = record { reason = protocol_unexpected_message }

unfoldable pub check_message : ConnectionSm → ℕ → Result ProtocolViolation (Unit {0})
unfolding allowed_in_handshaking allowed_in_authenticating allowed_in_active
check_message s t =
    let allowed : Bool = elim s.state [
      | handshaking ↦ allowed_in_handshaking t
      | authenticating ↦ allowed_in_authenticating t
      | authenticated ↦ true
      | active ↦ allowed_in_active t
      | suspended ↦ false
      | closing r ↦ false
    ] in
    if allowed then ok tt else err violation

unfoldable pub complete_handshake : ConnectionSm → Outcome ProtocolViolation ConnectionSm
complete_handshake s = elim s.state [
  | handshaking ↦ (record s { state = authenticating }, ok tt)
  | _ ↦ (s, err violation)
]

-- `auth_attempts` is a `u8`.
unfoldable pub record_auth_failure : ConnectionSm → Outcome ProtocolViolation ConnectionSm
record_auth_failure s = elim s.state [
  | authenticating ↦
      (let attempts = (s.auth_attempts + 1) % 2 ^ 8 in
        if leb auth_attempt_limit attempts
        then (
          record s { auth_attempts = attempts; state = closing auth_too_many_attempts },
          err (record { reason = auth_too_many_attempts }),
        )
        else (
          record s { auth_attempts = attempts },
          err (record { reason = auth_signature_invalid }),
        ))
  | _ ↦ (s, err violation)
]

unfoldable pub complete_authentication : ConnectionSm → Outcome ProtocolViolation ConnectionSm
complete_authentication s = elim s.state [
  | authenticating ↦ (record s { state = authenticated }, ok tt)
  | _ ↦ (s, err violation)
]

unfoldable pub on_channel_live : ConnectionSm → Outcome ProtocolViolation ConnectionSm
on_channel_live s = elim s.state [
  | authenticated ↦ (record s { state = active }, ok tt)
  | _ ↦ (s, err violation)
]

unfoldable pub suspend : ConnectionSm → Outcome ProtocolViolation ConnectionSm
suspend s = elim s.state [
  | active ↦ (record s { state = suspended }, ok tt)
  | _ ↦ (s, err violation)
]

unfoldable pub resume : ConnectionSm → Outcome ProtocolViolation ConnectionSm
resume s = elim s.state [
  | suspended ↦ (record s { state = active }, ok tt)
  | _ ↦ (s, err violation)
]

-- One call of a method that changes the state.
pub data Op : Type 0 where
  completes_handshake records_auth_failure completes_authentication : Op
  goes_live suspends resumes : Op

abbrev pub apply : Op → ConnectionSm → Outcome ProtocolViolation ConnectionSm
apply completes_handshake s = complete_handshake s
apply records_auth_failure s = record_auth_failure s
apply completes_authentication s = complete_authentication s
apply goes_live s = on_channel_live s
apply suspends s = suspend s
apply resumes s = resume s

abbrev pub run : ConnectionSm → List Op → ConnectionSm
run s [] = s
run s (op ∷ ops) = run (apply op s).0 ops
