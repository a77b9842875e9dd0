-- ===== src/Server/Connection/Lost.antt =====
-- A session that is lost, and one that ends otherwise.
use sardp.Base.{ℕ, ◌+◌, ◌%◌, ◌^◌, ◌≤◌, ◌≡◌, refl, sym, ap, true, false, some, List, ok, err, arith}
use sardp.Base.Eq.{bytes_eq, bytes_beq_iff}
use sardp.Base.Map
use sardp.Session.Messages.{SessionReauthenticate}
use sardp.Session.ConnectionSm.{ConnectionSm, active, suspended}
use sardp.Session.ConnectionSm
use sardp.Session.Store.{
  ConstantTimeEq, SuspendedSession, SessionStore, suspend, suspend_connection,
}
use sardp.Session.Reconnect.{reauthenticate}
use sardp.Session.Reconnect.Server.{reconnect_accepted}
use sardp.Server.Foreign.{Foreign}
use sardp.Server.ConnError.{ConnError, idle_timeout, is_transport_disconnect}
use sardp.Server.Session.{Network, SessionConfig, SessionState}
use sardp.Server.Session.Loop.{Round, run_round, idle_timeout_us}
use sardp.Auth.{Crypto, Exporter}
use sardp.Auth.Handshake.{HandshakeCodec, ServerRun}
use sardp.Auth.Handshake.Sides.{ServerIdentity}
use sardp.Server.Connection.Establish.{establish_connection, of_reconnect}
use sardp.Server.Connection.{ConnectionContext, established, finish, suspend_and_store}

-- What is stored of a session that is lost.
abbrev pub kept : ConnectionContext → SessionState → SuspendedSession
kept ctx s = record {
  reconnect_token = ctx.reconnect_token;
  connection_sm = record ctx.connection_sm { state = suspended };
  granted_permissions = ctx.granted_permissions;
  last_generation = s.video_channel.generation;
  user_id = ctx.user_id;
}

lookup-kept :
    (sessions : SessionStore) (id : List ℕ) (session : SuspendedSession) (asked : List ℕ)
    → asked ≡ id
    → Map.lookup asked (Map.insert id session sessions) ≡ some session
lookup-kept sessions id session asked same =
    rw (Map.lookup-insert, same, (bytes_beq_iff id id).1 refl)

module _ {F : Foreign} where
  finish-lost :
      (sessions : SessionStore) (ctx : ConnectionContext) (s : SessionState) (e : ConnError F)
      → ctx.connection_sm.state ≡ active
      → is_transport_disconnect e ≡ true
      → finish sessions ctx (s, err e)
        ≡ (Map.insert ctx.session_id (kept ctx s) sessions, some (ok tt))
  unfolding finish suspend_and_store suspend_connection ConnectionSm.suspend suspend
  finish-lost sessions ctx s e up lost = ground arith

  -- An active session whose transport is lost, for whatever reason, ends without an error, and a
  -- client that presents its id and its token on a new connection gets it back, if the answer can be
  -- written: active, with the same id and user and the permissions of the handshake, under a new
  -- token, at the generation after the channel's; and it has left the store.
  pub lost_session_resumes :
      (c : Crypto) (ct : ConstantTimeEq) (codec : HandshakeCodec F.cbor_error) (export : Exporter)
      (me : ServerIdentity) (run : ServerRun F) (sessions : SessionStore) (ctx : ConnectionContext)
      (s : SessionState) (e : ConnError F) (reauth : SessionReauthenticate) (new_token : List ℕ)
      → ctx.connection_sm.state ≡ active
      → is_transport_disconnect e ≡ true
      → reauth.prior_session_id ≡ ctx.session_id
      → reauth.reconnect_token ≡ ctx.reconnect_token
      → let (stored, ending) = finish sessions ctx (s, err e) in
        (ending ≡ some (ok tt))
        × (establish_connection c ct codec export me run new_token
              (ok tt)
              stored
              (ok (reauthenticate reauth))
            ≡ (
              Map.remove reauth.prior_session_id stored,
              ok (
                  established (record ctx {
                    connection_sm = record ctx.connection_sm { state = active };
                    session_id = reauth.prior_session_id;
                    reconnect_token = new_token;
                    starting_generation = (s.video_channel.generation + 1) % 2 ^ 64;
                    is_resumed = true;
                  })),
            ))
  unfolding establish_connection of_reconnect
  lost_session_resumes c ct codec export me run sessions ctx s e reauth new_token up lost same_id
        same_token =
      let stored = Map.insert ctx.session_id (kept ctx s) sessions in
      let ended = finish-lost sessions ctx s e up lost in
      let found =
        lookup-kept sessions ctx.session_id (kept ctx s) reauth.prior_session_id same_id in
      let back =
        reconnect_accepted {W = F.write_error} ct stored reauth (kept ctx s) found (sym same_token)
          refl new_token in
      rw ended (refl, ap of_reconnect back)

module _ {F : Foreign} (n : Network F) (cfg : SessionConfig F) where
  -- A client that was silent for 45 s: whatever is ready besides, the round ends the loop with an
  -- error that counts as a lost transport, and changes nothing.
  silence_suspends :
      (round : Round F) (s : SessionState)
      → round.shutdown ≡ false
      → s.last_activity + idle_timeout_us ≤ round.now
      → (run_round n cfg round s ≡ (s, err idle_timeout))
        × (is_transport_disconnect {F = F} idle_timeout ≡ true)
  unfolding run_round is_transport_disconnect
  silence_suspends round s running silent = (ground arith, refl)
