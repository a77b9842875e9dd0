-- ===== src/Session/Store.antt =====
-- src/session_store.rs: suspended sessions that await reconnection. The mutex is held for a whole
-- method, so each method is one step on the map.
pub mod Laws
pub mod Timers
use sardp.Base.{
  ℕ, ◌≡◌, ◌↔◌, Bool, true, Option, none, some, List, [], String, Result, ok, err, Outcome,
  if◌then◌else◌,
}
use sardp.Base.Eq.{bytes_eq}
use sardp.Base.Map
use sardp.Session.ConnectionSm.{ConnectionSm, ProtocolViolation}
use sardp.Session.ConnectionSm

-- The constant-time comparison of the `subtle` library: it answers as equality does.
pub record ConstantTimeEq : Type 0 where
  pub ct_eq : List ℕ → List ℕ → Bool
  pub ct_eq_iff : (a b : List ℕ) → (ct_eq a b ≡ true) ↔ (a ≡ b)

pub record SuspendedSession : Type 0 where
  pub reconnect_token : List ℕ
  pub connection_sm : ConnectionSm
  pub granted_permissions : ℕ
  pub last_generation : ℕ
  pub user_id : String

pub data ReconnectError : Type 0 where
  no_such_session token_mismatch : ReconnectError

-- Keyed by `session_id`.
abbrev pub SessionStore : Type 0
SessionStore = List (List ℕ × SuspendedSession)

unfoldable pub new : SessionStore
new = []

unfoldable pub suspend : SessionStore → List ℕ → SuspendedSession → SessionStore
suspend store session_id session = Map.insert session_id session store

unfoldable pub expire : SessionStore → List ℕ → SessionStore
expire store session_id = Map.remove session_id store

unfoldable pub contains : SessionStore → List ℕ → Bool
contains store session_id = Map.contains_key session_id store

module _ (c : ConstantTimeEq) where
  unfoldable pub try_reconnect :
      SessionStore → List ℕ → List ℕ → SessionStore × Result ReconnectError SuspendedSession
  try_reconnect store session_id token = elim (Map.lookup session_id store) [
    | none ↦ (store, err no_such_session)
    | some session ↦
        if c.ct_eq session.reconnect_token token
        then (Map.remove session_id store, ok session)
        else (store, err token_mismatch)
  ]

  unfoldable pub expire_if_token_matches : SessionStore → List ℕ → List ℕ → SessionStore
  expire_if_token_matches store session_id reconnect_token = elim (Map.lookup session_id store) [
    | none ↦ store
    | some session ↦
        if c.ct_eq session.reconnect_token reconnect_token
        then Map.remove session_id store
        else store
  ]

-- The part of `suspend_and_schedule_expiry` before the timer: on success the task is spawned that
-- later calls `expire_if_token_matches` with this id and token.
unfoldable pub suspend_connection :
    SessionStore
    → List ℕ
    → String
    → ConnectionSm
    → List ℕ
    → ℕ
    → ℕ
    → Outcome ProtocolViolation SessionStore
suspend_connection store session_id user_id connection_sm reconnect_token granted generation =
    let (sm, result) = ConnectionSm.suspend connection_sm in
    elim result [
      | ok u ↦ (
        suspend store session_id (record {
          reconnect_token = reconnect_token;
          connection_sm = sm;
          granted_permissions = granted;
          last_generation = generation;
          user_id = user_id;
        }),
        ok tt,
      )
      | err v ↦ (store, err v)
    ]
