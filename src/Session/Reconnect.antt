-- ===== src/Session/Reconnect.antt =====
-- src/reconnection.rs: both sides of a reconnection. The transport's part is what it answers: the
-- result of a write (an error `W`), the message that was read, with its decoded body. `fill_bytes`
-- gives the new token, an argument.
pub mod Server
pub mod Cycle
use sardp.Base.{
  ℕ, ◌+◌, ◌%◌, ◌^◌, ◌≡◌, Bool, Option, none, some, List, [], ◌∷◌, String, Result, ok, err,
  replicate, ◌==◌, if◌then◌else◌, Outcome,
}
use sardp.Session.ReasonCode.{
  ReasonCode, no_reason, auth_reconnect_token_invalid, protocol_unexpected_message,
}
use sardp.Session.Messages.{
  AuthResult, AuthStatus, denied, SessionReauthenticate, client_hello, session_reauthenticate,
  auth_result,
}
use sardp.Session.ConnectionSm.{ConnectionSm}
use sardp.Session.ConnectionSm
use sardp.Session.Store.{
  ConstantTimeEq, SuspendedSession, ReconnectError, SessionStore, try_reconnect,
}

-- The first envelope on a new control stream; `D` is the error of the CBOR decoder.
pub data FirstControlMessage : Type 0 where
  hello : List ℕ → FirstControlMessage
  reauthenticate : SessionReauthenticate → FirstControlMessage

pub data FirstMessageError (D : Type 0) : Type 0 where
  decode : D → FirstMessageError D
  protocol_violation : ReasonCode → FirstMessageError D

module _ {D : Type 0} (decode_reauth : List ℕ → Result D SessionReauthenticate) where
  unfoldable classify_first : ℕ → List ℕ → Result (FirstMessageError D) FirstControlMessage
  classify_first type_raw payload =
      if type_raw == client_hello
      then ok (hello payload)
      else if type_raw == session_reauthenticate
      then (elim (decode_reauth payload) [
        | ok reauth ↦ ok (reauthenticate reauth)
        | err e ↦ err (decode e)
      ])
      else err (protocol_violation protocol_unexpected_message)

pub record ReconnectOutcome : Type 0 where
  pub session_id : List ℕ
  pub reconnect_token : List ℕ
  pub granted_permissions : ℕ
  pub resumed_generation : ℕ
  pub user_id : String

pub data ReconnectServerError (W : Type 0) : Type 0 where
  store_error : ReconnectError → ReconnectServerError W
  write : W → ReconnectServerError W
  violation : ReasonCode → ReconnectServerError W

unfoldable pub reason_code : {W : Type 0} → ReconnectServerError W → ReasonCode
reason_code (store_error e) = auth_reconnect_token_invalid
reason_code (violation reason) = reason
reason_code (write e) = protocol_unexpected_message

-- What one run leaves: the store, what was handed to `write_envelope`, and what is returned.
pub record Completed (W : Type 0) : Type 0 where
  pub store : SessionStore
  pub sent : Option AuthResult
  pub result : Result (ReconnectServerError W) (ReconnectOutcome × ConnectionSm)

abbrev pub accepted : SessionReauthenticate → SuspendedSession → List ℕ → AuthResult
accepted reauth session new_token = record {
  status = AuthStatus.ok;
  reason = no_reason;
  session_id = reauth.prior_session_id;
  reconnect_token = new_token;
  granted_permissions = session.granted_permissions;
}

-- The denial that an error of the store is answered with.
unfoldable pub rejected : {W : Type 0} → ReconnectServerError W → AuthResult
unfolding reason_code
rejected e = record {
  status = denied;
  reason = reason_code e;
  session_id = replicate 16 0;
  reconnect_token = replicate 32 0;
  granted_permissions = 0;
}

-- `last_generation + 1` on a `u64`.
abbrev pub outcome : SessionReauthenticate → SuspendedSession → List ℕ → ReconnectOutcome
outcome reauth session new_token = record {
  session_id = reauth.prior_session_id;
  reconnect_token = new_token;
  granted_permissions = session.granted_permissions;
  resumed_generation = (session.last_generation + 1) % 2 ^ 64;
  user_id = session.user_id;
}

module _ {W : Type 0} (c : ConstantTimeEq) where
  -- The branch of a token that matched: the session is out of the store by now.
  unfoldable resume_session :
      SessionStore
      → SessionReauthenticate
      → SuspendedSession
      → List ℕ
      → Result W (Unit {0})
      → Completed W
  resume_session store reauth session new_token written =
      let (sm, resumed) = ConnectionSm.resume session.connection_sm in
      elim resumed [
        | err v ↦ record { store = store; sent = none; result = err (violation v.reason) }
        | ok u ↦ record {
          store = store;
          sent = some (accepted reauth session new_token);
          result = elim written [
            | err e ↦ err (write e)
            | ok u ↦ ok (outcome reauth session new_token, sm)
          ];
        }
      ]

  unfoldable pub server_complete_reconnect :
      SessionStore → SessionReauthenticate → List ℕ → Result W (Unit {0}) → Completed W
  unfolding resume_session rejected
  server_complete_reconnect store reauth new_token written =
      let (store', found) = try_reconnect c store reauth.prior_session_id reauth.reconnect_token in
      elim found [
        | ok session ↦ resume_session store' reauth session new_token written
        | err e ↦ record {
          store = store';
          sent = some (rejected {W = W} (store_error e));
          result = err (store_error e);
        }
      ]

pub data ClientReconnectError (D : Type 0) : Type 0 where
  client_decode : D → ClientReconnectError D
  client_violation : ReasonCode → ClientReconnectError D
  auth_denied : ClientReconnectError D

module _ {D : Type 0} where
  accept_answer :
      ConnectionSm
      → List ℕ
      → String
      → AuthStatus
      → AuthResult
      → ConnectionSm × Result (ClientReconnectError D) ReconnectOutcome
  accept_answer sm id user AuthStatus.ok answer =
      let (sm', resumed) = ConnectionSm.resume sm in
      elim resumed [
        | err v ↦ (sm', err (client_violation v.reason))
        | ok u ↦ (
          sm',
          ok (record {
            session_id = id;
            reconnect_token = answer.reconnect_token;
            granted_permissions = answer.granted_permissions;
            resumed_generation = 0;
            user_id = user;
          }),
        )
      ]
  accept_answer sm id user _ answer = (sm, err auth_denied)

  -- `client_reconnect` from the answer on: the type that was read, and its body.
  unfoldable client_reconnect :
      ConnectionSm
      → List ℕ
      → String
      → ℕ
      → Result D AuthResult
      → ConnectionSm × Result (ClientReconnectError D) ReconnectOutcome
  unfolding accept_answer
  client_reconnect sm prior_session_id user_id type_raw decoded =
      if type_raw == auth_result
      then (elim decoded [
        | err e ↦ (sm, err (client_decode e))
        | ok answer ↦ accept_answer sm prior_session_id user_id answer.status answer
      ])
      else (sm, err (client_violation protocol_unexpected_message))
