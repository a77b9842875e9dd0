-- ===== src/Session/Store/Timers.antt =====
-- The store over time: suspensions, each of which arms a timer, reconnections, and timers that
-- fire, in any order (`suspend_and_schedule_expiry` of src/session_store.rs with its spawned task).
use sardp.Base.{
  ℕ, ◌≡◌, refl, sym, ap, subst, ◌∙◌, ◌⊎◌, inl, inr, false, ◌&&◌, some, List, [], ◌∷◌, ◌++◌, String,
  arith, ok, Bool-cases,
}
use mathlib.Core.Path.{subst₂}
use sardp.Base.Eq.{bytes_eq, ◌=?◌, bytes_beq_iff}
use sardp.Base.Map
use sardp.Session.ConnectionSm.{ConnectionSm, ConnectionState, suspended}
use sardp.Session.ConnectionSm
use sardp.Session.Store.{
  ConstantTimeEq, SuspendedSession, SessionStore, suspend, suspend_connection, try_reconnect,
  expire_if_token_matches,
}
use sardp.Session.Store.Laws.{lookup-expire_if_token_matches}

-- The store, and the id and token of each armed timer.
pub record World : Type 0 where
  pub store : SessionStore
  pub armed : List (List ℕ × List ℕ)

module _ (c : ConstantTimeEq) where
  pub data Step (w v : World) : Type 0 where
    suspends :
        (id : List ℕ) (user : String) (sm : ConnectionSm) (token : List ℕ) (granted generation : ℕ)
        → suspend_connection w.store id user sm token granted generation ≡ (v.store, ok tt)
        → v.armed ≡ (id, token) ∷ w.armed
        → Step w v
    reconnects :
        (id token : List ℕ)
        → v.store ≡ (try_reconnect c w.store id token).0
        → v.armed ≡ w.armed
        → Step w v
    fires :
        (id token : List ℕ) (front back : List (List ℕ × List ℕ))
        → w.armed ≡ front ++ (id, token) ∷ back
        → v.armed ≡ front ++ back
        → v.store ≡ expire_if_token_matches c w.store id token
        → Step w v

  pub data Reach (w : World) : World → Type 0 where
    here : Reach w w
    next : {u v : World} → Reach w u → Step u v → Reach w v

abbrev pub start : World
start = record { store = []; armed = [] }

abbrev pub IsArmed : List ℕ → List ℕ → List (List ℕ × List ℕ) → Type 0
IsArmed id token [] = ⊥
IsArmed id token (x ∷ xs) = ((x.0 ≡ id) × (x.1 ≡ token)) ⊎ IsArmed id token xs

-- Each session in the store is suspended, and a timer waits to expire this very suspension.
abbrev Covered : SessionStore → List (List ℕ × List ℕ) → Type 0
Covered store armed =
    (id : List ℕ) (s : SuspendedSession)
    → Map.lookup id store ≡ some s
    → (s.connection_sm.state ≡ suspended) × IsArmed id s.reconnect_token armed

abbrev pub Inv : World → Type 0
Inv w = Covered w.store w.armed

IsArmed-skip :
    (id token i t : List ℕ) (front back : List (List ℕ × List ℕ))
    → ((i =? id) && (token =? t)) ≡ false
    → IsArmed id token (front ++ (i, t) ∷ back)
    → IsArmed id token (front ++ back)
IsArmed-skip id token i t [] back n (inl (e, f)) =
    ground (arith, bytes_beq_iff i id, bytes_beq_iff token t)
IsArmed-skip id token i t [] back n (inr h) = h
IsArmed-skip id token i t (x ∷ front) back n (inl e) = inl e
IsArmed-skip id token i t (x ∷ front) back n (inr h) =
    inr (IsArmed-skip id token i t front back n h)

suspend_connection_inv :
    (store v : SessionStore) (id : List ℕ) (user : String) (sm : ConnectionSm) (token : List ℕ)
    (granted generation : ℕ)
    → suspend_connection store id user sm token granted generation ≡ (v, ok tt)
    → (s : SuspendedSession) × (v ≡ Map.insert id s store)
      × (s.connection_sm.state ≡ suspended)
      × (s.reconnect_token ≡ token)
unfolding suspend_connection suspend ConnectionSm.suspend
suspend_connection_inv store v id user sm token granted generation h = (
  record {
    reconnect_token = token;
    connection_sm = record sm { state = suspended };
    granted_permissions = granted;
    last_generation = generation;
    user_id = user;
  },
  ground arith,
  refl,
  refl,
)

Covered-suspend :
    (store : SessionStore) (armed : List (List ℕ × List ℕ)) (id : List ℕ) (s : SuspendedSession)
    → s.connection_sm.state ≡ suspended
    → Covered store armed
    → Covered (Map.insert id s store) ((id, s.reconnect_token) ∷ armed)
Covered-suspend store armed id s down h j r found = elim (Bool-cases (id =? j)) [
  | inl same ↦
      let e : s ≡ r = ground (arith, Map.lookup-insert id j s store) in
      (
        subst (λ (t : SuspendedSession). t.connection_sm.state ≡ suspended) e down,
        inl ((bytes_beq_iff id j).0 same, ap (λ (t : SuspendedSession). t.reconnect_token) e),
      )
  | inr other ↦
      let old = h j r (ground (arith, Map.lookup-insert id j s store)) in (old.0, inr old.1)
]

module _ (c : ConstantTimeEq) where
  -- A reconnection, successful or not, adds no entry.
  still_there :
      (store : SessionStore) (id token j : List ℕ) (r : SuspendedSession)
      → Map.lookup j (try_reconnect c store id token).0 ≡ some r
      → Map.lookup j store ≡ some r
  unfolding try_reconnect
  still_there store id token j r found = ground (arith, Map.lookup-remove id j store)

  Covered-fire :
      (store : SessionStore) (front back : List (List ℕ × List ℕ)) (id token : List ℕ)
      → Covered store (front ++ (id, token) ∷ back)
      → Covered (expire_if_token_matches c store id token) (front ++ back)
  Covered-fire store front back id token h j r found =
      let law = lookup-expire_if_token_matches c store id token j in
      let kept : (Map.lookup j store ≡ some r)
          × (((id =? j) && (r.reconnect_token =? token)) ≡ false) =
        (ground (arith, law), ground (arith, law)) in
      let old = h j r kept.0 in
      (old.0, IsArmed-skip j r.reconnect_token id token front back kept.1 old.1)

  -- Every step keeps each stored session suspended and covered by a timer of its own.
  Step-Inv : {w v : World} → Step c w v → Inv w → Inv v
  Step-Inv {w} {v} (suspends id user sm token granted generation e f) h =
      let (s, stored, down, tok) =
        suspend_connection_inv w.store v.store id user sm token granted generation e in
      subst₂ Covered (sym stored) (ap (λ (t : List ℕ). (id, t) ∷ w.armed) tok ∙ sym f)
        (Covered-suspend w.store w.armed id s down h)
  Step-Inv {w} {v} (reconnects id token e f) h =
      subst₂ Covered (sym e) (sym f) (λ j r found. h j r (still_there w.store id token j r found))
  Step-Inv {w} {v} (fires id token front back e f g) h =
      subst₂ Covered (sym g) (sym f)
        (Covered-fire w.store front back id token (subst (Covered w.store) e h))

  -- So in every history from the empty store, a session that is there can be resumed, and the
  -- timer of its own suspension is still to fire.
  Reach-Inv : {w : World} → Reach c start w → Inv w
  Reach-Inv here = λ id s found. unfold Map.lookup in cc
  Reach-Inv (next r st) = Step-Inv st (Reach-Inv r)

  -- In every history of the store, from the empty one on, in which suspensions, attempts to
  -- reconnect and timers that fire take turns in any order, each stored session is suspended, and
  -- a timer is armed that will expire this very suspension.
  pub stored_is_suspended :
      (w : World) (id : List ℕ) (s : SuspendedSession)
      → Reach c start w
      → Map.lookup id w.store ≡ some s
      → (s.connection_sm.state ≡ suspended) × IsArmed id s.reconnect_token w.armed
  stored_is_suspended w id s reach found = Reach-Inv reach id s found
