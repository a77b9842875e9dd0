-- ===== src/Tests/Connections.antt =====
-- A handshake, and a connection that is lost and comes back.
use sardp.Base.{
  ℕ, ◌+◌, ◌%◌, ◌^◌, ◌≡◌, refl, ap, true, false, some, List, [], ◌∷◌, Result, ok, err, replicate,
  length,
}
use sardp.Base.Map
use sardp.Base.Eq.{bytes_eq, ◌=?◌, bytes_beq_iff}
use sardp.Session.Messages.{
  SessionReauthenticate, reconnect, client_hello, server_hello, auth_pubkey, auth_result,
  AuthResult,
}
use sardp.Session.ConnectionSm.{active}
use sardp.Session.Store.{ConstantTimeEq}
use sardp.Session.Reconnect.{reauthenticate}
use sardp.Auth.{Crypto, Exporter, channel_binding_context, sign_exporter}
use sardp.Auth.Binding.{context_binds}
use sardp.Auth.Handshake.{ServerHello, AuthPubkey, HandshakeCodec, result_granted}
use sardp.Auth.Handshake.Sides.{
  ClientIdentity, ServerIdentity, hello_of_server, signed_by, start, client_handshake,
  server_handshake,
}
use sardp.Auth.Handshake.Agreement.{
  delivered_to_client, delivered_to_server, agreed, left_with, honest_sides_agree,
}
use sardp.Auth.Handshake.Trust.{IsProven, server_handshake-IsProven}
use sardp.Server.Foreign.{Foreign}
use sardp.Server.ConnError.{idle_timeout, is_transport_disconnect}
use sardp.Server.Messages.{Codec}
use sardp.Server.Session.{SessionConfig, SessionState}
use sardp.Server.Session.Loop.{enter}
use sardp.Server.Connection.{ConnectionContext, established, finish}
use sardp.Server.Connection.Establish.{establish_connection}
use sardp.Server.Connection.Lost.{lost_session_resumes}

abbrev plain : Foreign
plain = record {
  connection_error = ℕ;
  read_error = ℕ;
  write_error = ℕ;
  cbor_error = ℕ;
  join_error = ℕ;
  io_error = ℕ;
  exit_status = ℕ;
}

-- Keys, digests and signatures of the right lengths, which stand for the library's: what is
-- digested or signed counts by its length.
abbrev digest : List ℕ → List ℕ
digest bytes = replicate 32 (length bytes)

abbrev signature : List ℕ → List ℕ
signature bytes = replicate 64 (length bytes)

abbrev crypto : Crypto
crypto = record {
  sha256 = digest;
  length-sha256 = λ bytes. refl;
  signing_key = Unit {0};
  verifying_key = λ key. replicate 32 5;
  sign = λ key message. signature message;
  is_well_formed = λ key. key =? replicate 32 5;
  verify = λ key message signed. signed =? signature message;
  length-verifying_key = λ key. refl;
  length-sign = λ key message. refl;
  verifying_key-IsWellFormed = λ key. refl;
  verify-sign = λ key message. (bytes_beq_iff (signature message) (signature message)).1 refl;
}

abbrev client : ClientIdentity
client = record { client_version = "0.1.0"; client_name = "c"; user_id = "ann"; device_id = "d" }

abbrev server : ServerIdentity
server = record { server_version = "0.1.0"; server_name = "s"; trusted = replicate 32 5 }

abbrev exporter_of : List ℕ → List ℕ
exporter_of context = 9 ∷ context

abbrev export : Exporter
export label context = some (exporter_of context)

abbrev challenge : List ℕ
challenge = replicate 32 7

abbrev decode_hello : List ℕ → Result ℕ ServerHello
decode_hello [] = err 0
decode_hello (tag ∷ bytes) = ok (hello_of_server server bytes)

abbrev decode_key : List ℕ → Result ℕ AuthPubkey
decode_key [] = err 0
decode_key (tag ∷ bytes) =
    ok (record { user_id = "ann"; device_id = "d"; public_key = replicate 32 5; signature = bytes })

abbrev decode_result : List ℕ → Result ℕ AuthResult
decode_result [] = err 0
decode_result (id ∷ token) = ok (result_granted (id ∷ []) token)

abbrev encode_result : List ℕ → List ℕ → List ℕ
encode_result [] token = token
encode_result (id ∷ more) token = id ∷ token

-- An encoding of what this client and this server say.
abbrev codec : HandshakeCodec ℕ
codec = record {
  encode_client_hello = λ m. 1 ∷ [];
  encode_server_hello = λ m. 2 ∷ m.auth_challenge;
  decode_server_hello = decode_hello;
  encode_auth_pubkey = λ m. 3 ∷ m.signature;
  decode_auth_pubkey = decode_key;
  encode_auth_result = λ m. encode_result m.session_id m.reconnect_token;
  decode_auth_result = decode_result;
}

abbrev context : List ℕ
context = channel_binding_context crypto (1 ∷ []) (2 ∷ challenge) challenge

abbrev signed : List ℕ
signed = signature (exporter_of context)

key_decoded : decode_key (3 ∷ signed) ≡ ok (signed_by crypto tt client (exporter_of context))
unfolding sign_exporter
key_decoded = refl

abbrev sent_by_server : List (ℕ × List ℕ)
sent_by_server = (auth_result, 4 ∷ 6 ∷ []) ∷ (server_hello, 2 ∷ challenge) ∷ []

abbrev offered : List ℕ
offered = codec.encode_auth_pubkey (signed_by crypto tt client (exporter_of context))

honest_sides_agree_example :
    (client_handshake crypto codec export tt client
        (delivered_to_client {F = plain} (2 ∷ challenge) (4 ∷ 6 ∷ []))
        start
      ≡ (
        left_with ((auth_pubkey, offered) ∷ (client_hello, 1 ∷ []) ∷ []),
        ok (agreed (4 ∷ []) (6 ∷ []) "ann"),
      ))
    × (server_handshake crypto codec export server
          (1 ∷ [])
          (delivered_to_server {F = plain} challenge (4 ∷ []) (6 ∷ []) offered)
          start
        ≡ (left_with sent_by_server, ok (agreed (4 ∷ []) (6 ∷ []) "ann")))
unfolding sign_exporter
honest_sides_agree_example =
    honest_sides_agree plain crypto codec export tt client server challenge (4 ∷ []) (6 ∷ [])
      (exporter_of context) refl refl key_decoded refl refl

server_handshake-IsProven_example :
    IsProven plain crypto codec export server
      (1 ∷ [])
      (delivered_to_server {F = plain} challenge (4 ∷ []) (6 ∷ []) offered)
      (agreed (4 ∷ []) (6 ∷ []) "ann")
server_handshake-IsProven_example =
    server_handshake-IsProven plain crypto codec export server (1 ∷ [])
      (delivered_to_server {F = plain} challenge (4 ∷ []) (6 ∷ []) offered)
      (agreed (4 ∷ []) (6 ∷ []) "ann") (ap (λ p. p.1) honest_sides_agree_example.1)

same_context :
    channel_binding_context crypto (1 ∷ []) (2 ∷ challenge) challenge
    ≡ channel_binding_context crypto (8 ∷ []) (2 ∷ challenge) challenge
unfolding channel_binding_context
same_context = refl

context_binds_example :
    (crypto.sha256 (1 ∷ []) ≡ crypto.sha256 (8 ∷ []))
    × (crypto.sha256 (2 ∷ challenge) ≡ crypto.sha256 (2 ∷ challenge))
    × (challenge ≡ challenge)
context_binds_example =
    context_binds crypto (1 ∷ []) (2 ∷ challenge) challenge (8 ∷ []) (2 ∷ challenge) challenge
      same_context

abbrev ct : ConstantTimeEq
ct = record { ct_eq = λ a b. a =? b; ct_eq_iff = bytes_beq_iff }

abbrev bodies : Codec ℕ
bodies = record { time_sync_request = λ b. err 0; file_transfer_request = λ b. err 0 }

abbrev settings : SessionConfig plain
settings = record {
  granted_permissions = 7;
  session_id = 4 ∷ [];
  user_id = "ann";
  is_synthetic = true;
  codec = bodies;
}

abbrev running : SessionState
running = enter settings 5 0 []

abbrev connection : ConnectionContext
connection = record {
  connection_sm = record { state = active; auth_attempts = 0 };
  session_id = 4 ∷ [];
  user_id = "ann";
  reconnect_token = 6 ∷ [];
  granted_permissions = 7;
  starting_generation = 5;
  is_resumed = false;
}

abbrev back : SessionReauthenticate
back = record { reason = reconnect; prior_session_id = 4 ∷ []; reconnect_token = 6 ∷ [] }

counts_as_lost : is_transport_disconnect {F = plain} idle_timeout ≡ true
unfolding is_transport_disconnect
counts_as_lost = refl

lost_session_resumes_example :
    let (stored, ending) = finish {F = plain} [] connection (running, err idle_timeout) in
    (ending ≡ some (ok tt))
    × (establish_connection crypto ct codec export server
          (delivered_to_server {F = plain} challenge [] [] [])
          (9 ∷ [])
          (ok tt)
          stored
          (ok (reauthenticate back))
        ≡ (
          Map.remove (4 ∷ []) stored,
          ok (
              established (record connection {
                connection_sm = record { state = active; auth_attempts = 0 };
                session_id = 4 ∷ [];
                reconnect_token = 9 ∷ [];
                starting_generation = (running.video_channel.generation + 1) % 2 ^ 64;
                is_resumed = true;
              })),
        ))
lost_session_resumes_example =
    lost_session_resumes {F = plain} crypto ct codec export server
      (delivered_to_server {F = plain} challenge [] [] []) [] connection running idle_timeout back
      (9 ∷ []) refl counts_as_lost refl refl
