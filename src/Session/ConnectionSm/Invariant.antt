-- ===== src/Session/ConnectionSm/Invariant.antt =====
-- What holds of a connection between two calls, and which messages each state admits.
use sardp.Base.{ℕ, Bool, true, false, ◌≤◌, ◌≡◌, ◌≢◌, ◌↔◌, refl, ◌⊎◌, ok, err, arith, List, [], ◌∷◌}
use sardp.Session.ReasonCode.{auth_too_many_attempts}
use sardp.Session.Messages.{client_hello, server_hello, auth_pubkey}
use sardp.Session.ConnectionSm.{
  ConnectionState, ConnectionSm, handshaking, authenticating, authenticated, active, suspended,
  closing, ProtocolViolation, violation, new, check_message, record_auth_failure,
  complete_handshake, complete_authentication, on_channel_live, suspend, resume, Op,
  completes_handshake, records_auth_failure, completes_authentication, goes_live, suspends, resumes,
  apply, run,
}

abbrev pub is_closing : ConnectionState → Bool
is_closing (closing r) = true
is_closing _ = false

-- Failures are counted only while authenticating, and the third closes the connection.
pub record Inv (s : ConnectionSm) : Type 0 where
  pub capped : s.auth_attempts ≤ 3
  pub fresh : s.state ≡ handshaking → s.auth_attempts ≡ 0
  pub third_closes : s.auth_attempts ≡ 3 → s.state ≡ closing auth_too_many_attempts
  pub closed_by_third : is_closing s.state ≡ true → s.auth_attempts ≡ 3

new-Inv : Inv new
unfolding new
new-Inv = ground arith

-- Every call, legal or not, keeps the invariant.
apply-Inv : (op : Op) (s : ConnectionSm) → Inv s → Inv (apply op s).0
unfolding complete_handshake record_auth_failure complete_authentication on_channel_live suspend
    resume
apply-Inv completes_handshake s h = ground arith
apply-Inv records_auth_failure s h = ground arith
apply-Inv completes_authentication s h = ground arith
apply-Inv goes_live s h = ground arith
apply-Inv suspends s h = ground arith
apply-Inv resumes s h = ground arith

-- So every history of calls from a new connection keeps it.
run-Inv : (ops : List Op) (s : ConnectionSm) → Inv s → Inv (run s ops)
run-Inv [] s h = h
run-Inv (op ∷ ops) s h = run-Inv ops (apply op s).0 (apply-Inv op s h)

-- The messages of the protocol's table, state by state.
abbrev IsLegal : ConnectionState → ℕ → Type 0
IsLegal handshaking t = (t ≡ client_hello) ⊎ (t ≡ server_hello)
IsLegal authenticating t = t ≡ auth_pubkey
IsLegal authenticated t = Unit {0}
IsLegal active t = (t ≢ client_hello) × (t ≢ server_hello)
IsLegal suspended t = ⊥
IsLegal (closing r) t = ⊥

legal_accepted :
    (st : ConnectionState) (n t : ℕ)
    → IsLegal st t
    → check_message (record { state = st; auth_attempts = n }) t ≡ ok tt
unfolding check_message
legal_accepted handshaking n t h = ground arith
legal_accepted authenticating n t h = ground arith
legal_accepted authenticated n t h = refl
legal_accepted active n t h = ground arith
legal_accepted suspended n t h = absurd h
legal_accepted (closing r) n t h = absurd h

accepted-IsLegal :
    (st : ConnectionState) (n t : ℕ)
    → check_message (record { state = st; auth_attempts = n }) t ≡ ok tt
    → IsLegal st t
unfolding check_message
accepted-IsLegal handshaking n t h = ground arith
accepted-IsLegal authenticating n t h = ground arith
accepted-IsLegal authenticated n t h = tt
accepted-IsLegal active n t h = ground arith
accepted-IsLegal suspended n t h = ground arith
accepted-IsLegal (closing r) n t h = ground arith

-- `check_message` accepts a message exactly when the table of its state has it.
check_message_iff : (s : ConnectionSm) (t : ℕ) → (check_message s t ≡ ok tt) ↔ IsLegal s.state t
check_message_iff s t =
    (accepted-IsLegal s.state s.auth_attempts t, legal_accepted s.state s.auth_attempts t)

-- A closing connection stays as it is: each call is refused, and each message.
pub closing_absorbs :
    (op : Op) (s : ConnectionSm) (t : ℕ)
    → is_closing s.state ≡ true
    → (apply op s ≡ (s, err violation)) × (check_message s t ≡ err violation)
unfolding complete_handshake record_auth_failure complete_authentication on_channel_live suspend
    resume check_message
closing_absorbs completes_handshake s t h = ground arith
closing_absorbs records_auth_failure s t h = ground arith
closing_absorbs completes_authentication s t h = ground arith
closing_absorbs goes_live s t h = ground arith
closing_absorbs suspends s t h = ground arith
closing_absorbs resumes s t h = ground arith

-- A refused call leaves the connection as it was, but for a failed attempt, which counts.
refused_unchanged :
    (op : Op) (s : ConnectionSm) (v : ProtocolViolation)
    → op ≢ records_auth_failure
    → (apply op s).1 ≡ err v
    → (apply op s).0 ≡ s
unfolding complete_handshake complete_authentication on_channel_live suspend resume
refused_unchanged completes_handshake s v n h = ground arith
refused_unchanged records_auth_failure s v n h = absurd (n refl)
refused_unchanged completes_authentication s v n h = ground arith
refused_unchanged goes_live s v n h = ground arith
refused_unchanged suspends s v n h = ground arith
refused_unchanged resumes s v n h = ground arith
