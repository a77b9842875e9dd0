-- ===== src/Tests/Sessions.antt =====
-- A session that is suspended, and attempts to reconnect to it.
use sardp.Base.{ℕ, ◌≡◌, ◌≢◌, ◌↔◌, refl, ap, true, some, List, [], ◌∷◌, ok, err, arith, replicate}
use sardp.Base.Eq.{bytes_eq, ◌=?◌, bytes_beq_iff}
use sardp.Base.Map
use sardp.Session.ReasonCode.{auth_reconnect_token_invalid}
use sardp.Session.Messages.{SessionReauthenticate, reconnect, denied}
use sardp.Session.ConnectionSm
use sardp.Session.ConnectionSm.{
  ConnectionSm, ConnectionState, handshaking, authenticating, active, suspended, closing, new, run,
  check_message, completes_handshake, completes_authentication, goes_live, suspends,
  records_auth_failure, Op,
}
use sardp.Session.ConnectionSm.Trace.{InOrder, is_live, live_only-InOrder}
use sardp.Session.Store.{
  ConstantTimeEq, SuspendedSession, SessionStore, token_mismatch, try_reconnect, suspend,
  suspend_connection,
}
use sardp.Session.Store.Laws.{try_reconnect_iff}
use sardp.Session.Store.Timers.{
  World, suspends, Reach, here, next, start, IsArmed, stored_is_suspended,
}
use sardp.Session.Reconnect.{ReconnectOutcome, store_error, outcome, server_complete_reconnect}
use sardp.Session.Reconnect.Server.{refusal, reconnect_refused, reconnect_accepted}
use sardp.Session.Reconnect.Cycle.{suspend_again, token_rotates}

-- The comparison of the library, by the equality of lists.
abbrev plain : ConstantTimeEq
plain = record { ct_eq = λ a b. a =? b; ct_eq_iff = bytes_beq_iff }

abbrev session : SuspendedSession
session = record {
  reconnect_token = 7 ∷ [];
  connection_sm = record { state = suspended; auth_attempts = 1 };
  granted_permissions = 3;
  last_generation = 4;
  user_id = "ann";
}

abbrev store : SessionStore
store = (1 ∷ [], session) ∷ []

abbrev reauth : SessionReauthenticate
reauth = record { reason = reconnect; prior_session_id = 1 ∷ []; reconnect_token = 7 ∷ [] }

abbrev forged : SessionReauthenticate
forged = record { reason = reconnect; prior_session_id = 1 ∷ []; reconnect_token = 8 ∷ [] }

found : Map.lookup (1 ∷ []) store ≡ some session
unfolding Map.lookup
found = refl

succeeds : (try_reconnect plain store (1 ∷ []) (7 ∷ [])).1 ≡ ok session
unfolding try_reconnect Map.lookup
succeeds = refl

try_reconnect_iff_example :
    ((try_reconnect plain store (1 ∷ []) (7 ∷ [])).1 ≡ ok session)
    ↔ ((Map.lookup (1 ∷ []) store ≡ some session) × (session.reconnect_token ≡ 7 ∷ []))
try_reconnect_iff_example = try_reconnect_iff plain store (1 ∷ []) (7 ∷ []) session

forged_differs :
    (s : SuspendedSession) → Map.lookup (1 ∷ []) store ≡ some s → s.reconnect_token ≢ 8 ∷ []
unfolding Map.lookup
forged_differs s e = ground arith

reconnect_refused_example :
    server_complete_reconnect {W = ℕ} plain store forged (9 ∷ []) (ok tt) ≡ record {
      store = store;
      sent = some (record {
        status = denied;
        reason = auth_reconnect_token_invalid;
        session_id = replicate 16 0;
        reconnect_token = replicate 32 0;
        granted_permissions = 0;
      });
      result = err (store_error (refusal (Map.lookup (1 ∷ []) store)));
    }
reconnect_refused_example =
    reconnect_refused {W = ℕ} plain store forged (9 ∷ []) (ok tt) forged_differs

abbrev renewed : ReconnectOutcome × ConnectionSm
renewed = (outcome reauth session (9 ∷ []), record { state = active; auth_attempts = 1 })

renewal :
    (server_complete_reconnect {W = ℕ} plain store reauth (9 ∷ []) (ok tt)).result ≡ ok renewed
renewal =
    ap (λ x. x.result)
      (reconnect_accepted {W = ℕ} plain store reauth session found refl refl (9 ∷ []))

token_rotates_example :
    let left = (server_complete_reconnect {W = ℕ} plain store reauth (9 ∷ []) (ok tt)).store in
    let again = suspend_again left renewed 6 in
    ((try_reconnect plain again (1 ∷ []) (7 ∷ [])).1 ≡ err token_mismatch)
    × ((try_reconnect plain again (1 ∷ []) (9 ∷ [])).1
        ≡ ok (record {
          reconnect_token = 9 ∷ [];
          connection_sm = record { state = suspended; auth_attempts = 1 };
          granted_permissions = 3;
          last_generation = 6;
          user_id = "ann";
        }))
token_rotates_example =
    token_rotates {W = ℕ} plain store reauth (9 ∷ []) renewed.0 renewed.1 6 (λ e. ground arith)
      renewal

abbrev world : World
world = record { store = store; armed = (1 ∷ [], 7 ∷ []) ∷ [] }

suspended_once :
    suspend_connection [] (1 ∷ []) "ann" (record { state = active; auth_attempts = 1 }) (7 ∷ []) 3 4
    ≡ (store, ok tt)
unfolding suspend_connection suspend ConnectionSm.suspend Map.insert
suspended_once = refl

world_reached : Reach plain start world
world_reached = next here (
    suspends (1 ∷ []) "ann" (record { state = active; auth_attempts = 1 }) (7 ∷ []) 3 4
      suspended_once refl)

stored_is_suspended_example :
    (session.connection_sm.state ≡ suspended) × IsArmed (1 ∷ []) (7 ∷ []) world.armed
stored_is_suspended_example = stored_is_suspended plain world (1 ∷ []) session world_reached found

abbrev set_up : List Op
set_up = completes_handshake ∷ completes_authentication ∷ goes_live ∷ []

live : is_live (run new set_up).state ≡ true
unfolding new ConnectionSm.complete_handshake ConnectionSm.complete_authentication
    ConnectionSm.on_channel_live
live = refl

live_only-InOrder_example : InOrder set_up set_up
live_only-InOrder_example = live_only-InOrder set_up live
