-- ===== src/Session/Reconnect/Server.antt =====
-- What the server does with each attempt to reconnect.
use sardp.Base.{
  ℕ, ◌≡◌, ◌≢◌, refl, Option, none, some, List, arith, Result, ok, err, replicate, inl, inr,
  Option-cases,
}
use sardp.Base.Eq.{bytes_eq}
use sardp.Base.Map
use sardp.Session.ReasonCode.{ReasonCode, auth_reconnect_token_invalid, protocol_unexpected_message}
use sardp.Session.Messages.{SessionReauthenticate, denied}
use sardp.Session.ConnectionSm.{ConnectionSm, suspended, active}
use sardp.Session.ConnectionSm
use sardp.Session.Store.{
  ConstantTimeEq, SuspendedSession, ReconnectError, SessionStore, try_reconnect, no_such_session,
  token_mismatch,
}
use sardp.Session.Store.Timers.{World, Reach, start, stored_is_suspended}
use sardp.Session.Reconnect.{
  store_error, write, violation, reason_code, accepted, rejected, outcome,
  server_complete_reconnect,
}

abbrev pub refusal : Option SuspendedSession → ReconnectError
refusal none = no_such_session
refusal (some s) = token_mismatch

module _ {W : Type 0} (c : ConstantTimeEq) where
  -- A wrong id or token: the store is as it was, and the denial that is sent names AUTH.5 and holds
  -- neither an id nor a token nor a permission; the error that is returned says which it was.
  pub reconnect_refused :
      (store : SessionStore) (reauth : SessionReauthenticate) (new_token : List ℕ)
      (written : Result W (Unit {0}))
      → ((s : SuspendedSession)
          → Map.lookup reauth.prior_session_id store ≡ some s
          → s.reconnect_token ≢ reauth.reconnect_token)
      → server_complete_reconnect c store reauth new_token written ≡ record {
        store = store;
        sent = some (record {
          status = denied;
          reason = auth_reconnect_token_invalid;
          session_id = replicate 16 0;
          reconnect_token = replicate 32 0;
          granted_permissions = 0;
        });
        result = err (store_error (refusal (Map.lookup reauth.prior_session_id store)));
      }
  unfolding server_complete_reconnect try_reconnect rejected reason_code
  reconnect_refused store reauth new_token written wrong =
      elim (Option-cases (Map.lookup reauth.prior_session_id store)) [
        | inl e ↦ ground arith
        | inr (s, e) ↦
            ground (arith, wrong s e, c.ct_eq_iff s.reconnect_token reauth.reconnect_token)
      ]

  module _ (store : SessionStore) (reauth : SessionReauthenticate) (s : SuspendedSession)
      (found : Map.lookup reauth.prior_session_id store ≡ some s)
      (same : s.reconnect_token ≡ reauth.reconnect_token)
      (down : s.connection_sm.state ≡ suspended) where
    -- The right token of a suspended session: the session leaves the store and is active again,
    -- under the new token, with its permissions, its user and the next generation.
    pub reconnect_accepted :
        (new_token : List ℕ)
        → server_complete_reconnect {W = W} c store reauth new_token (ok tt) ≡ record {
          store = Map.remove reauth.prior_session_id store;
          sent = some (accepted reauth s new_token);
          result = ok (outcome reauth s new_token, record s.connection_sm { state = active });
        }
    unfolding server_complete_reconnect try_reconnect ConnectionSm.resume
    reconnect_accepted new_token =
        ground (arith, c.ct_eq_iff s.reconnect_token reauth.reconnect_token)

    -- If the answer cannot be written, the session has left the store all the same: the answer
    -- that was lost was an acceptance, and the reason that is reported is PROTOCOL.1.
    pub reconnect_lost :
        (new_token : List ℕ) (e : W)
        → (server_complete_reconnect c store reauth new_token (err e) ≡ record {
          store = Map.remove reauth.prior_session_id store;
          sent = some (accepted reauth s new_token);
          result = err (write e);
        })
          × (reason_code (write e) ≡ protocol_unexpected_message)
    unfolding server_complete_reconnect try_reconnect ConnectionSm.resume reason_code
    reconnect_lost new_token e =
        (ground (arith, c.ct_eq_iff s.reconnect_token reauth.reconnect_token), refl)

  -- In every history of the store, `resume` is never the step that fails: whatever the attempt and
  -- the transport, what is returned is no violation.
  never_violation :
      (w : World) (reauth : SessionReauthenticate) (new_token : List ℕ)
      (written : Result W (Unit {0})) (r : ReasonCode)
      → Reach c start w
      → (server_complete_reconnect c w.store reauth new_token written).result ≢ err (violation r)
  unfolding server_complete_reconnect try_reconnect ConnectionSm.resume
  never_violation w reauth new_token written r reach e =
      elim (Option-cases (Map.lookup reauth.prior_session_id w.store)) [
        | inl missing ↦ ground arith
        | inr (s, found) ↦
            ground (arith, (stored_is_suspended c w reauth.prior_session_id s reach found).0)
      ]
