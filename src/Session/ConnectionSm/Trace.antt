-- ===== src/Session/ConnectionSm/Trace.antt =====
-- Histories of calls: what must have happened before a connection is where it is.
use sardp.Base.{
  ℕ, zero, suc, ◌+◌, ◌<◌, ◌≡◌, refl, ◌⊎◌, inl, inr, arith, Bool, Bool-cases, ap, ◌∙◌, Result,
  if◌then◌else◌, ltb, true, false, List, [], ◌∷◌, replicate,
}
use sardp.Session.ReasonCode.{auth_too_many_attempts}
use sardp.Session.ConnectionSm.{
  ConnectionState, ConnectionSm, handshaking, authenticating, authenticated, active, suspended,
  closing, ProtocolViolation, new, record_auth_failure, complete_handshake, complete_authentication,
  on_channel_live, suspend, resume, Op, completes_handshake, records_auth_failure,
  completes_authentication, goes_live, apply, run,
}
use sardp.Session.ConnectionSm.Invariant.{is_closing, closing_absorbs}

-- The states behind authentication, and those in which the session is live.
abbrev is_past_auth : ConnectionState → Bool
is_past_auth authenticated = true
is_past_auth active = true
is_past_auth suspended = true
is_past_auth _ = false

abbrev pub is_live : ConnectionState → Bool
is_live active = true
is_live suspended = true
is_live _ = false

-- The calls occur in this order among the calls of the history.
abbrev pub InOrder : List Op → List Op → Type 0
InOrder [] ops = Unit {0}
InOrder (x ∷ xs) [] = ⊥
InOrder (x ∷ xs) (op ∷ ops) = ((x ≡ op) × InOrder xs ops) ⊎ InOrder (x ∷ xs) ops

-- What is still to come before a connection is live.
abbrev remaining : ConnectionState → List Op
remaining handshaking = completes_handshake ∷ completes_authentication ∷ goes_live ∷ []
remaining authenticating = completes_authentication ∷ goes_live ∷ []
remaining authenticated = goes_live ∷ []
remaining _ = []

-- One call, from any state, takes at most the next step of those that remain.
step_InOrder :
    (op : Op) (st : ConnectionState) (n : ℕ) (ops : List Op)
    → is_closing (apply op (record { state = st; auth_attempts = n })).0.state ≡ false
    → InOrder (remaining (apply op (record { state = st; auth_attempts = n })).0.state) ops
    → InOrder (remaining st) (op ∷ ops)
unfolding complete_handshake record_auth_failure complete_authentication on_channel_live suspend
    resume
step_InOrder completes_handshake handshaking n ops c h = inl (refl, h)
step_InOrder completes_authentication authenticating n ops c h = inl (refl, h)
step_InOrder goes_live authenticated n ops c h = inl (refl, h)
step_InOrder records_auth_failure authenticating n ops c h = ground arith
step_InOrder _ active n ops c h = tt
step_InOrder _ suspended n ops c h = tt
step_InOrder _ (closing r) n ops c h = tt
step_InOrder _ handshaking n ops c h = inr h
step_InOrder _ authenticating n ops c h = inr h
step_InOrder _ authenticated n ops c h = inr h

run_closing : (ops : List Op) (s : ConnectionSm) → is_closing s.state ≡ true → run s ops ≡ s
run_closing [] s c = refl
run_closing (op ∷ ops) s c =
    let stays =
      ap (λ (o : ConnectionSm × Result ProtocolViolation (Unit {0})). o.0)
        (closing_absorbs op s 0 c).0 in
    ap (λ t. run t ops) stays ∙ run_closing ops s c

live_remaining : (st : ConnectionState) → is_live st ≡ true → remaining st ≡ []
live_remaining active h = refl
live_remaining suspended h = refl
live_remaining _ h = absurd (ground arith)

-- Live states are reached only by the calls that remain, in their order.
live_InOrder :
    (ops : List Op) (s : ConnectionSm)
    → is_live (run s ops).state ≡ true
    → InOrder (remaining s.state) ops
live_InOrder [] s h = rw (live_remaining s.state h) tt
live_InOrder (op ∷ ops) s h = elim (Bool-cases (is_closing (apply op s).0.state)) [
  | inl closed ↦ cc (
    ap (λ (t : ConnectionSm). is_live t.state) (run_closing ops (apply op s).0 closed),
    closing_dead (apply op s).0.state closed,
  )
  | inr open_yet ↦
      step_InOrder op s.state s.auth_attempts ops open_yet (live_InOrder ops (apply op s).0 h)
]
  where
    closing_dead : (st : ConnectionState) → is_closing st ≡ true → is_live st ≡ false
    closing_dead (closing r) c = refl
    closing_dead _ c = ground arith

-- A connection becomes active, or is suspended, only after the handshake, then authentication,
-- then the first live channel, in this order among its calls.
pub live_only-InOrder :
    (ops : List Op)
    → is_live (run new ops).state ≡ true
    → InOrder (completes_handshake ∷ completes_authentication ∷ goes_live ∷ []) ops
unfolding new
live_only-InOrder ops h = live_InOrder ops new h

-- From authenticating, as many failures as are left to the limit close the connection, and no
-- fewer do: it stays authenticating with the failures counted.
failures_close :
    (k n : ℕ)
    → n < 3
    → run (record { state = authenticating; auth_attempts = n }) (replicate k records_auth_failure)
      ≡ (if ltb (n + k) 3
          then record { state = authenticating; auth_attempts = n + k }
          else record { state = closing auth_too_many_attempts; auth_attempts = 3 })
unfolding record_auth_failure
failures_close zero n h = ground arith
failures_close (suc k) n h = ground (
  arith,
  failures_close k (n + 1),
  run_closing (replicate k records_auth_failure)
      (record { state = closing auth_too_many_attempts; auth_attempts = 3 }) refl,
)
