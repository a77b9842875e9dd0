-- ===== src/Session/Store/Laws.antt =====
-- The store against its contract: a token is spent once, and nobody else's session is touched.
use sardp.Base.{
  ℕ, ◌≡◌, ◌↔◌, false, ◌&&◌, none, some, List, arith, ok, err, inl, inr, Option-cases, if◌then◌else◌,
}
use sardp.Base.Eq.{bytes_eq, ◌=?◌, bytes_beq_iff}
use sardp.Base.Map
use sardp.Session.Store.{
  ConstantTimeEq, SuspendedSession, ReconnectError, no_such_session, SessionStore, try_reconnect,
  expire_if_token_matches,
}

module _ (c : ConstantTimeEq) where
  -- `try_reconnect` succeeds exactly when the session is there under this id with this token, and
  -- it returns that session.
  pub try_reconnect_iff :
      (store : SessionStore) (id token : List ℕ) (s : SuspendedSession)
      → ((try_reconnect c store id token).1 ≡ ok s)
        ↔ ((Map.lookup id store ≡ some s) × (s.reconnect_token ≡ token))
  unfolding try_reconnect
  try_reconnect_iff store id token s = elim (Option-cases (Map.lookup id store)) [
    | inl e ↦ (λ h. ground arith, λ h. ground arith)
    | inr (t, e) ↦ (
      λ h. ground (arith, c.ct_eq_iff t.reconnect_token token),
      λ h. ground (arith, c.ct_eq_iff s.reconnect_token token),
    )
  ]

  -- An attempt that fails leaves the store as it was.
  try_reconnect_failed :
      (store : SessionStore) (id token : List ℕ) (x : ReconnectError)
      → (try_reconnect c store id token).1 ≡ err x
      → (try_reconnect c store id token).0 ≡ store
  unfolding try_reconnect
  try_reconnect_failed store id token x h = ground arith

  -- After a success the session is gone and every other one is where it was, so a second attempt
  -- at it, with whatever token, finds no session.
  try_reconnect_consumes :
      (store : SessionStore) (id token again : List ℕ) (s : SuspendedSession)
      → (try_reconnect c store id token).1 ≡ ok s
      → (try_reconnect c (try_reconnect c store id token).0 id again).1 ≡ err no_such_session
  unfolding try_reconnect
  try_reconnect_consumes store id token again s h =
      let (found, same) = (try_reconnect_iff store id token s).0 h in
      ground (
        arith,
        c.ct_eq_iff s.reconnect_token token,
        Map.lookup-remove id id store,
        bytes_beq_iff id id,
      )

  lookup-try_reconnect :
      (store : SessionStore) (id token j : List ℕ)
      → (id =? j) ≡ false
      → Map.lookup j (try_reconnect c store id token).0 ≡ Map.lookup j store
  unfolding try_reconnect
  lookup-try_reconnect store id token j h = ground (arith, Map.lookup-remove id j store)

  -- Expiry with a token removes the entry of that id if it has that token, and nothing else: a
  -- timer that was armed for an earlier suspension leaves a later one alone.
  pub lookup-expire_if_token_matches :
      (store : SessionStore) (id token j : List ℕ)
      → Map.lookup j (expire_if_token_matches c store id token) ≡ elim (Map.lookup j store) [
        | none ↦ none
        | some s ↦ if (id =? j) && (s.reconnect_token =? token) then none else some s
      ]
  unfolding expire_if_token_matches
  lookup-expire_if_token_matches store id token j = elim (Option-cases (Map.lookup id store)) [
    | inl e ↦ ground (arith, bytes_beq_iff id j)
    | inr (t, e) ↦ ground (
      arith,
      bytes_beq_iff id j,
      c.ct_eq_iff t.reconnect_token token,
      bytes_beq_iff t.reconnect_token token,
      Map.lookup-remove id j store,
    )
  ]
