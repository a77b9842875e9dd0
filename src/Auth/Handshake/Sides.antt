-- ===== src/Auth/Handshake/Sides.antt =====
-- src/handshake.rs: `client_handshake_with_timeouts` behind the opening of its stream, and
-- `server_handshake_from_client_hello`.
use sardp.Base.{ℕ, List, [], ◌∷◌, String, Result, ok, err, map_err, not, if◌then◌else◌}
use sardp.Base.Eq.{bytes_eq, ◌=?◌}
use sardp.Base.Action.{◌>>=◌, ◌>>◌, pure, fail, try, modify}
use sardp.Session.Messages.{
  client_hello, server_hello, auth_pubkey, auth_result, AuthStatus, AuthResult, denied,
  mfa_required,
}
use sardp.Session.ConnectionSm
use sardp.Session.ConnectionSm.{
  ConnectionSm, complete_handshake, complete_authentication, record_auth_failure,
}
use sardp.Server.Foreign.{Foreign}
use sardp.Server.ConnError.{
  AuthError, signature_invalid, read_failed, write, decode, auth, auth_denied, handshake_timeout,
  authentication_timeout,
}
use sardp.Auth.{
  Crypto, Exporter, channel_binding_context, compute_exporter, sign_exporter, verify_exporter,
}
use sardp.Auth.Handshake.{
  public_key, ClientHello, ServerHello, AuthPubkey, HandshakeCodec, HandshakeOutcome,
  HandshakeState, HandshakeAction, ClientRun, ServerRun, check, on_sm, write_envelope, within,
  granted_at_first, result_granted, result_denied,
}

abbrev pub start : HandshakeState
start = record { sm = ConnectionSm.new; sent = [] }

pub record ServerIdentity : Type 0 where
  pub server_version : String
  pub server_name : String
  pub trusted : List ℕ

-- The client's arguments besides its key, with `CARGO_PKG_VERSION`.
pub record ClientIdentity : Type 0 where
  pub client_version : String
  pub client_name : String
  pub user_id : String
  pub device_id : String

abbrev pub hello_of_client : ClientIdentity → ClientHello
hello_of_client me = record {
  client_name = me.client_name;
  client_version = me.client_version;
  capabilities = [];
  auth_methods = public_key ∷ [];
}

abbrev pub signed_by : (c : Crypto) → c.signing_key → ClientIdentity → List ℕ → AuthPubkey
signed_by c key me exporter = record {
  user_id = me.user_id;
  device_id = me.device_id;
  public_key = c.verifying_key key;
  signature = sign_exporter c key exporter;
}

abbrev pub hello_of_server : ServerIdentity → List ℕ → ServerHello
hello_of_server me auth_challenge = record {
  server_name = me.server_name;
  server_version = me.server_version;
  capabilities = [];
  accepted_combinations = (public_key ∷ [], 0) ∷ [];
  auth_challenge = auth_challenge;
}

-- The closure `verification`.
unfoldable pub verify_client :
    Crypto → Exporter → List ℕ → AuthPubkey → List ℕ → Result AuthError (Unit {0})
verify_client c export trusted offered context =
    if not (offered.public_key =? trusted)
    then err signature_invalid
    else (elim (compute_exporter export context) [
      | err e ↦ err e
      | ok exporter ↦ verify_exporter c offered.public_key exporter offered.signature
    ])

module _ {F : Foreign} (c : Crypto) (codec : HandshakeCodec F.cbor_error) (export : Exporter) where
  module _ (key : c.signing_key) (me : ClientIdentity) where
    -- The first phase: the server's hello, decoded, and its bytes.
    unfoldable pub client_hello_phase : ClientRun F → HandshakeAction F (ServerHello × List ℕ)
    client_hello_phase run = do
      try (map_err write run.prologue_written)
      check client_hello
      write_envelope client_hello (codec.encode_client_hello (hello_of_client me)) run.hello_written
      (type_raw, payload) ← try (map_err read_failed run.hello_read)
      check type_raw
      hello ← try (map_err decode (codec.decode_server_hello payload))
      pure (hello, payload)

    unfoldable pub client_auth_phase :
        ClientRun F → ServerHello × List ℕ → HandshakeAction F AuthResult
    client_auth_phase run (hello, server_hello_bytes) = do
      let context =
          channel_binding_context c (codec.encode_client_hello (hello_of_client me))
            server_hello_bytes hello.auth_challenge
      exporter ← try (map_err auth (compute_exporter export context))
      check auth_pubkey
      write_envelope auth_pubkey (codec.encode_auth_pubkey (signed_by c key me exporter))
          run.auth_written
      (type_raw, payload) ← try (map_err read_failed run.result_read)
      try (map_err decode (codec.decode_auth_result payload))

    unfoldable pub accept_result : AuthStatus → AuthResult → HandshakeAction F HandshakeOutcome
    accept_result AuthStatus.ok r = do
      on_sm complete_authentication
      pure (record {
        session_id = r.session_id;
        reconnect_token = r.reconnect_token;
        granted_permissions = r.granted_permissions;
        user_id = me.user_id;
      })
    accept_result mfa_required r = fail auth_denied
    accept_result denied r = fail auth_denied

    unfoldable pub client_handshake : ClientRun F → HandshakeAction F HandshakeOutcome
    unfolding client_hello_phase client_auth_phase accept_result
    client_handshake run = do
      hellos ← within run.hello_elapsed handshake_timeout (client_hello_phase run)
      on_sm complete_handshake
      r ← within run.auth_elapsed authentication_timeout (client_auth_phase run hellos)
      accept_result r.status r

  module _ (me : ServerIdentity) where
    unfoldable pub server_hello_phase : ServerRun F → HandshakeAction F (List ℕ)
    server_hello_phase run = do
      let bytes = codec.encode_server_hello (hello_of_server me run.auth_challenge)
      check server_hello
      write_envelope server_hello bytes run.hello_written
      pure bytes

    unfoldable pub server_auth_phase : ServerRun F → HandshakeAction F AuthPubkey
    server_auth_phase run = do
      (type_raw, payload) ← try (map_err read_failed run.auth_read)
      check type_raw
      try (map_err decode (codec.decode_auth_pubkey payload))

    unfoldable pub conclude :
        ServerRun F → AuthPubkey → Result AuthError (Unit {0}) → HandshakeAction F HandshakeOutcome
    conclude run offered (ok u) = do
      on_sm complete_authentication
      write_envelope auth_result
          (codec.encode_auth_result (result_granted run.session_id run.reconnect_token))
          run.result_written
      pure (record {
        session_id = run.session_id;
        reconnect_token = run.reconnect_token;
        granted_permissions = granted_at_first;
        user_id = offered.user_id;
      })
    conclude run offered (err e) = do
      modify (λ s. record s { sm = (record_auth_failure s.sm).0 })
      write_envelope auth_result (codec.encode_auth_result result_denied) run.result_written
      fail (auth e)

    unfoldable pub server_handshake : List ℕ → ServerRun F → HandshakeAction F HandshakeOutcome
    unfolding server_hello_phase server_auth_phase verify_client conclude
    server_handshake client_hello_bytes run = do
      check client_hello
      server_hello_bytes ← within run.hello_elapsed handshake_timeout (server_hello_phase run)
      on_sm complete_handshake
      offered ← within run.auth_elapsed authentication_timeout (server_auth_phase run)
      let context =
          channel_binding_context c client_hello_bytes server_hello_bytes run.auth_challenge
      conclude run offered (verify_client c export me.trusted offered context)
