-- ===== src/Server/Connection/Establish.antt =====
-- src/reconnection.rs: `establish_connection`, which ends in a fresh handshake or in a reconnection.
-- The first message is what `read_first_control_message` gave.
use sardp.Base.{ℕ, true, false, List, Result, ok, err}
use sardp.Session.ConnectionSm.{ConnectionSm}
use sardp.Session.Store.{ConstantTimeEq, SessionStore}
use sardp.Session.Reconnect.{
  FirstControlMessage, hello, reauthenticate, ReconnectOutcome, Completed, reason_code,
  server_complete_reconnect,
}
use sardp.Auth.{Crypto, Exporter}
use sardp.Auth.Handshake.{HandshakeCodec, HandshakeOutcome, HandshakeState, ServerRun}
use sardp.Auth.Handshake.Sides.{ServerIdentity, server_handshake, start}
use sardp.Server.Foreign.{Foreign}
use sardp.Server.ConnError.{HandshakeError}
use sardp.Server.Connection.{ConnectionContext, EstablishOutcome, established, reconnect_rejected}

abbrev fresh_context : HandshakeOutcome → ConnectionSm → ConnectionContext
fresh_context o sm = record {
  connection_sm = sm;
  session_id = o.session_id;
  user_id = o.user_id;
  reconnect_token = o.reconnect_token;
  granted_permissions = o.granted_permissions;
  starting_generation = 0;
  is_resumed = false;
}

abbrev resumed_context : ReconnectOutcome → ConnectionSm → ConnectionContext
resumed_context o sm = record {
  connection_sm = sm;
  session_id = o.session_id;
  user_id = o.user_id;
  reconnect_token = o.reconnect_token;
  granted_permissions = o.granted_permissions;
  starting_generation = o.resumed_generation;
  is_resumed = true;
}

module _ {F : Foreign} where
  unfoldable of_handshake :
      SessionStore
      → HandshakeState × Result (HandshakeError F) HandshakeOutcome
      → SessionStore × Result (HandshakeError F) EstablishOutcome
  of_handshake sessions (s, ok o) = (sessions, ok (established (fresh_context o s.sm)))
  of_handshake sessions (s, err e) = (sessions, err e)

  unfoldable pub of_reconnect :
      {W : Type 0} → Completed W → SessionStore × Result (HandshakeError F) EstablishOutcome
  of_reconnect done = elim done.result [
    | ok resumed ↦ (done.store, ok (established (resumed_context resumed.0 resumed.1)))
    | err e ↦ (done.store, ok (reconnect_rejected (reason_code e)))
  ]

  module _ (c : Crypto) (ct : ConstantTimeEq) (codec : HandshakeCodec F.cbor_error)
      (export : Exporter) (me : ServerIdentity) (run : ServerRun F) (new_token : List ℕ)
      (answered : Result F.write_error (Unit {0})) where
    unfoldable pub establish_connection :
        SessionStore
        → Result (HandshakeError F) FirstControlMessage
        → SessionStore × Result (HandshakeError F) EstablishOutcome
    unfolding of_handshake of_reconnect
    establish_connection sessions (err e) = (sessions, err e)
    establish_connection sessions (ok (hello client_hello_bytes)) =
        of_handshake sessions (server_handshake c codec export me client_hello_bytes run start)
    establish_connection sessions (ok (reauthenticate reauth)) =
        of_reconnect (server_complete_reconnect ct sessions reauth new_token answered)
