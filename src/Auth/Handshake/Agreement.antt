-- ===== src/Auth/Handshake/Agreement.antt =====
-- An honest client and server agree.
use sardp.Base.{ℕ, ◌≡◌, refl, false, some, List, [], ◌∷◌, String, ok}
use sardp.Base.Eq.{bytes_eq, bytes_beq_iff}
use sardp.Base.Action.{try}
use sardp.Session.Messages.{client_hello, server_hello, auth_pubkey, auth_result}
use sardp.Session.ConnectionSm.{
  ConnectionSm, authenticating, authenticated, check_message, complete_handshake,
  complete_authentication, record_auth_failure,
}
use sardp.Session.ConnectionSm
use sardp.Server.Foreign.{Foreign}
use sardp.Auth.{Crypto, Exporter, exporter_label, channel_binding_context, compute_exporter}
use sardp.Auth.Binding.{verify-sign_exporter}
use sardp.Auth.Handshake.{
  HandshakeCodec, HandshakeOutcome, HandshakeState, ClientRun, ServerRun, check, write_envelope,
  granted_at_first, result_granted,
}
use sardp.Auth.Handshake.Sides.{
  ClientIdentity, ServerIdentity, hello_of_client, hello_of_server, signed_by, start,
  client_handshake, client_hello_phase, client_auth_phase, accept_result, server_handshake,
  server_hello_phase, server_auth_phase, verify_client, conclude,
}

-- The runs where the transport delivers and no limit elapses.
abbrev pub delivered_to_client : {F : Foreign} → List ℕ → List ℕ → ClientRun F
delivered_to_client server_hello_bytes result_bytes = record {
  prologue_written = ok tt;
  hello_written = ok tt;
  hello_read = ok (server_hello, server_hello_bytes);
  hello_elapsed = false;
  auth_written = ok tt;
  result_read = ok (auth_result, result_bytes);
  auth_elapsed = false;
}

abbrev pub delivered_to_server : {F : Foreign} → List ℕ → List ℕ → List ℕ → List ℕ → ServerRun F
delivered_to_server challenge session_id reconnect_token auth_bytes = record {
  auth_challenge = challenge;
  hello_written = ok tt;
  hello_elapsed = false;
  auth_read = ok (auth_pubkey, auth_bytes);
  auth_elapsed = false;
  session_id = session_id;
  reconnect_token = reconnect_token;
  result_written = ok tt;
}

abbrev pub agreed : List ℕ → List ℕ → String → HandshakeOutcome
agreed session_id reconnect_token user_id = record {
  session_id = session_id;
  reconnect_token = reconnect_token;
  granted_permissions = granted_at_first;
  user_id = user_id;
}

abbrev pub left_with : List (ℕ × List ℕ) → HandshakeState
left_with sent = record { sm = record { state = authenticated; auth_attempts = 0 }; sent = sent }

-- The states that each side goes through.
abbrev after_hello : List (ℕ × List ℕ) → HandshakeState
after_hello sent = record { sm = record { state = authenticating; auth_attempts = 0 }; sent = sent }

verify_client-honest :
    (c : Crypto) (export : Exporter) (key : c.signing_key) (client : ClientIdentity)
    (trusted context exporter : List ℕ)
    → trusted ≡ c.verifying_key key
    → export exporter_label context ≡ some exporter
    → verify_client c export trusted (signed_by c key client exporter) context ≡ ok tt
unfolding verify_client compute_exporter
verify_client-honest c export key client trusted context exporter trusts exported =
    rw (exported, trusts, (bytes_beq_iff (c.verifying_key key) (c.verifying_key key)).1 refl)
      (verify-sign_exporter c key exporter)

compute_exporter-some :
    (export : Exporter) (context exporter : List ℕ)
    → export exporter_label context ≡ some exporter
    → compute_exporter export context ≡ ok exporter
unfolding compute_exporter
compute_exporter-some export context exporter exported = rw (exported, compute_exporter)

module _ (F : Foreign) (c : Crypto) (codec : HandshakeCodec F.cbor_error) (export : Exporter)
    (key : c.signing_key) (client : ClientIdentity) (server : ServerIdentity)
    (challenge session_id reconnect_token exporter : List ℕ) where
  abbrev hello : List ℕ
  hello = codec.encode_client_hello (hello_of_client client)

  abbrev answer : List ℕ
  answer = codec.encode_server_hello (hello_of_server server challenge)

  abbrev offered : List ℕ
  offered = codec.encode_auth_pubkey (signed_by c key client exporter)

  abbrev result : List ℕ
  result = codec.encode_auth_result (result_granted session_id reconnect_token)

  client_hello_phase-honest :
      codec.decode_server_hello answer ≡ ok (hello_of_server server challenge)
      → client_hello_phase c codec export key client
          (delivered_to_client {F = F} answer result)
          start
        ≡ (
          record start { sent = (client_hello, hello) ∷ [] },
          ok (hello_of_server server challenge, answer),
        )
  unfolding client_hello_phase check write_envelope try check_message ConnectionSm.new
  client_hello_phase-honest decoded = rw decoded

  client_auth_phase-honest :
      codec.decode_auth_result result ≡ ok (result_granted session_id reconnect_token)
      → export exporter_label (channel_binding_context c hello answer challenge) ≡ some exporter
      → client_auth_phase c codec export key client
          (delivered_to_client {F = F} answer result)
          (hello_of_server server challenge, answer)
          (after_hello ((client_hello, hello) ∷ []))
        ≡ (
          after_hello ((auth_pubkey, offered) ∷ (client_hello, hello) ∷ []),
          ok (result_granted session_id reconnect_token),
        )
  unfolding client_auth_phase check write_envelope try check_message
  client_auth_phase-honest decoded exported =
      let context = channel_binding_context c hello answer challenge in
      rw (compute_exporter-some export context exporter exported, decoded)

  server_auth_phase-honest :
      codec.decode_auth_pubkey offered ≡ ok (signed_by c key client exporter)
      → server_auth_phase c codec export server
          (delivered_to_server {F = F} challenge session_id reconnect_token offered)
          (after_hello ((server_hello, answer) ∷ []))
        ≡ (after_hello ((server_hello, answer) ∷ []), ok (signed_by c key client exporter))
  unfolding server_auth_phase check try check_message
  server_auth_phase-honest decoded = rw decoded

  -- A client and a server that trusts its key, on one connection whose exporter is known, each
  -- reading what the other wrote, where the three messages that are decoded decode to what was
  -- encoded, agree: both come out authenticated, with the same session, token, permissions and user.
  pub honest_sides_agree :
      server.trusted ≡ c.verifying_key key
      → codec.decode_server_hello answer ≡ ok (hello_of_server server challenge)
      → codec.decode_auth_pubkey offered ≡ ok (signed_by c key client exporter)
      → codec.decode_auth_result result ≡ ok (result_granted session_id reconnect_token)
      → export exporter_label (channel_binding_context c hello answer challenge) ≡ some exporter
      → (client_handshake c codec export key client
            (delivered_to_client {F = F} answer result)
            start
          ≡ (
            left_with ((auth_pubkey, offered) ∷ (client_hello, hello) ∷ []),
            ok (agreed session_id reconnect_token client.user_id),
          ))
        × (server_handshake c codec export server hello
              (delivered_to_server {F = F} challenge session_id reconnect_token offered)
              start
            ≡ (
              left_with ((auth_result, result) ∷ (server_hello, answer) ∷ []),
              ok (agreed session_id reconnect_token client.user_id),
            ))
  unfolding client_handshake accept_result server_handshake server_hello_phase conclude check
      write_envelope check_message ConnectionSm.new complete_handshake complete_authentication
  honest_sides_agree trusts hello_decoded key_decoded result_decoded exported =
      let context = channel_binding_context c hello answer challenge in
      (
        rw (
          client_hello_phase-honest hello_decoded,
          client_auth_phase-honest result_decoded exported,
        ),
        rw (
          server_auth_phase-honest key_decoded,
          verify_client-honest c export key client server.trusted context exporter trusts exported,
        ),
      )
