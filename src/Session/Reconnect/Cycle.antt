-- ===== src/Session/Reconnect/Cycle.antt =====
-- A session over several connections: suspended, resumed, suspended again.
use sardp.Base.{ℕ, ◌≡◌, ◌≢◌, refl, some, List, arith, ok, err, inl, inr, Option-cases}
use sardp.Base.Eq.{bytes_eq, bytes_beq_iff}
use sardp.Base.Map
use sardp.Session.Messages.{SessionReauthenticate}
use sardp.Session.ConnectionSm.{ConnectionSm, suspended, active}
use sardp.Session.ConnectionSm
use sardp.Session.Store.{
  ConstantTimeEq, SuspendedSession, SessionStore, suspend, suspend_connection, try_reconnect,
  token_mismatch,
}
use sardp.Session.Store.Laws.{try_reconnect_iff}
use sardp.Session.Reconnect.{ReconnectOutcome, server_complete_reconnect}

-- What the server stores when the resumed connection is lost in its turn: `suspend_connection`
-- with the outcome of the reconnection and the video channel's generation by then.
abbrev pub suspend_again : SessionStore → ReconnectOutcome × ConnectionSm → ℕ → SessionStore
suspend_again store (o, sm) generation =
    (suspend_connection store o.session_id o.user_id sm o.reconnect_token o.granted_permissions
      generation).0

module _ {W : Type 0} (c : ConstantTimeEq) where
  -- What a success says of the outcome.
  reconnect_ok :
      (store : SessionStore) (reauth : SessionReauthenticate) (new_token : List ℕ)
      (o : ReconnectOutcome) (sm : ConnectionSm)
      → (server_complete_reconnect {W = W} c store reauth new_token (ok tt)).result ≡ ok (o, sm)
      → (o.session_id ≡ reauth.prior_session_id)
        × (o.reconnect_token ≡ new_token)
        × (sm.state ≡ active)
  unfolding server_complete_reconnect try_reconnect ConnectionSm.resume
  reconnect_ok store reauth new_token o sm h =
      elim (Option-cases (Map.lookup reauth.prior_session_id store)) [
        | inl e ↦ ground arith
        | inr (s, e) ↦ ground arith
      ]

-- What is stored when an active connection is lost.
lookup-suspend_again :
    (store : SessionStore) (o : ReconnectOutcome) (sm : ConnectionSm) (generation : ℕ)
    (id token : List ℕ)
    → o.session_id ≡ id
    → o.reconnect_token ≡ token
    → sm.state ≡ active
    → Map.lookup id (suspend_again store (o, sm) generation)
      ≡ some (record {
        reconnect_token = token;
        connection_sm = record sm { state = suspended };
        granted_permissions = o.granted_permissions;
        last_generation = generation;
        user_id = o.user_id;
      })
unfolding suspend_connection suspend ConnectionSm.suspend
lookup-suspend_again store o sm generation id token same_id same_token h =
    rw (same_id, same_token, h, Map.lookup-insert, (bytes_beq_iff id id).1 refl)

module _ (c : ConstantTimeEq) where
  refused_mismatch :
      (store : SessionStore) (id token : List ℕ) (s : SuspendedSession)
      → Map.lookup id store ≡ some s
      → s.reconnect_token ≢ token
      → (try_reconnect c store id token).1 ≡ err token_mismatch
  unfolding try_reconnect
  refused_mismatch store id token s found h = ground (arith, h, c.ct_eq_iff s.reconnect_token token)

module _ {W : Type 0} (c : ConstantTimeEq) where
  -- A reconnection that succeeded hands over an active connection, whose next suspension is
  -- stored under the same id with the new token alone: the old token, unless the generator gave
  -- it again, is refused, and the new one brings back the session, suspended, with the user, the
  -- permissions and the generation that it was suspended with.
  pub token_rotates :
      (store : SessionStore) (reauth : SessionReauthenticate) (new_token : List ℕ)
      (o : ReconnectOutcome) (sm : ConnectionSm) (generation : ℕ)
      → new_token ≢ reauth.reconnect_token
      → (server_complete_reconnect {W = W} c store reauth new_token (ok tt)).result ≡ ok (o, sm)
      → let left = (server_complete_reconnect {W = W} c store reauth new_token (ok tt)).store in
        let again = suspend_again left (o, sm) generation in
        ((try_reconnect c again reauth.prior_session_id reauth.reconnect_token).1
          ≡ err token_mismatch)
        × ((try_reconnect c again reauth.prior_session_id new_token).1
            ≡ ok (record {
              reconnect_token = new_token;
              connection_sm = record sm { state = suspended };
              granted_permissions = o.granted_permissions;
              last_generation = generation;
              user_id = o.user_id;
            }))
  token_rotates store reauth new_token o sm generation differs h =
      let left = (server_complete_reconnect {W = W} c store reauth new_token (ok tt)).store in
      let (same_id, same_token, up) = reconnect_ok {W = W} c store reauth new_token o sm h in
      let again = suspend_again left (o, sm) generation in
      let kept : SuspendedSession = record {
        reconnect_token = new_token;
        connection_sm = record sm { state = suspended };
        granted_permissions = o.granted_permissions;
        last_generation = generation;
        user_id = o.user_id;
      } in
      let e : Map.lookup reauth.prior_session_id again ≡ some kept =
        lookup-suspend_again left o sm generation reauth.prior_session_id new_token same_id
          same_token up in
      (
        refused_mismatch c again reauth.prior_session_id reauth.reconnect_token kept e differs,
        (try_reconnect_iff c again reauth.prior_session_id new_token kept).1 (e, refl),
      )
