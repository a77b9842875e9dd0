-- ===== src/Video/InstanceSm/Setup.antt =====
-- The order in which an instance may be used.
use sardp.Base.{
  ◌≡◌, refl, ◌⊎◌, inl, inr, ◌∙◌, subst, Bool, true, false, not, if◌then◌else◌, List, [], ◌∷◌, ok,
  Outcome, arith,
}
use sardp.Video.InstanceSm.{
  VideoInstanceSm, InstanceState, created, configuring, streaming, congested, closed, CloseReason,
  reset, ProtocolViolation, new, on_prologue_sent, on_generation_sent, on_encoder_config_sent,
  on_first_idr_sent, on_congested, on_recovered, on_reset, on_client_requested_reset,
}

pub data Event : Type 0 where
  prologue generation encoder_config first_idr : Event
  congests recovers resets client_resets : Event

abbrev pub apply : Event → VideoInstanceSm → Outcome ProtocolViolation VideoInstanceSm
apply prologue s = on_prologue_sent s
apply generation s = on_generation_sent s
apply encoder_config s = on_encoder_config_sent s
apply first_idr s = on_first_idr_sent s
apply congests s = on_congested s
apply recovers s = on_recovered s
apply resets s = on_reset s
apply client_resets s = on_client_requested_reset s

-- All events are accepted, and this is the state that they lead to.
abbrev pub Accepts : VideoInstanceSm → List Event → VideoInstanceSm → Type 0
Accepts s [] last = s ≡ last
Accepts s (e ∷ es) last = ((apply e s).1 ≡ ok tt) × Accepts (apply e s).0 es last

abbrev IsReset : Event → Type 0
IsReset e = (e ≡ resets) ⊎ (e ≡ client_resets)

-- What may follow the set-up, when the instance is congested or not: it becomes congested and
-- recovers in turn, and a reset ends it.
abbrev pub Streams : Bool → List Event → Type 0
Streams is_congested [] = Unit {0}
Streams false (e ∷ es) = ((e ≡ congests) × Streams true es) ⊎ ((e ≡ client_resets) × (es ≡ []))
Streams true (e ∷ es) = ((e ≡ recovers) × Streams false es) ⊎ (IsReset e × (es ≡ []))

abbrev state_of : Bool → InstanceState
state_of true = congested
state_of false = streaming

closed_refuses :
    (s last : VideoInstanceSm) (r : CloseReason) (es : List Event)
    → s.state ≡ closed r
    → Accepts s es last
    → es ≡ []
unfolding on_prologue_sent on_generation_sent on_encoder_config_sent on_first_idr_sent on_congested
    on_recovered on_reset on_client_requested_reset
closed_refuses s last r [] h a = refl
closed_refuses s last r (prologue ∷ es) h a = ground arith
closed_refuses s last r (generation ∷ es) h a = ground arith
closed_refuses s last r (encoder_config ∷ es) h a = ground arith
closed_refuses s last r (first_idr ∷ es) h a = ground arith
closed_refuses s last r (congests ∷ es) h a = ground arith
closed_refuses s last r (recovers ∷ es) h a = ground arith
closed_refuses s last r (resets ∷ es) h a = ground arith
closed_refuses s last r (client_resets ∷ es) h a = ground arith

-- What one accepted event tells of the state before it and after it.
abbrev Moves : Event → VideoInstanceSm → VideoInstanceSm → Type 0
Moves prologue s t = (s.state ≡ created) × (t ≡ record s { state = configuring })
Moves generation s t =
    (s.state ≡ configuring)
    × (s.sent_generation ≡ false)
    × (t ≡ record s { sent_generation = true })
Moves encoder_config s t =
    (s.state ≡ configuring)
    × (s.sent_generation ≡ true)
    × (s.sent_encoder_config ≡ false)
    × (t ≡ record s { sent_encoder_config = true })
Moves first_idr s t =
    (s.state ≡ configuring)
    × (s.sent_generation ≡ true)
    × (s.sent_encoder_config ≡ true)
    × (t ≡ record s { state = streaming })
Moves congests s t = (s.state ≡ streaming) × (t ≡ record s { state = congested })
Moves recovers s t = (s.state ≡ congested) × (t ≡ record s { state = streaming })
Moves resets s t = (s.state ≡ congested) × (t ≡ record s { state = closed reset })
Moves client_resets s t =
    ((s.state ≡ streaming) ⊎ (s.state ≡ congested)) × (t ≡ record s { state = closed reset })

apply-Moves : (e : Event) (s : VideoInstanceSm) → (apply e s).1 ≡ ok tt → Moves e s (apply e s).0
unfolding on_prologue_sent on_generation_sent on_encoder_config_sent on_first_idr_sent on_congested
    on_recovered on_reset on_client_requested_reset
apply-Moves prologue s h = ground arith
apply-Moves generation s h = ground arith
apply-Moves encoder_config s h = ground arith
apply-Moves first_idr s h = ground arith
apply-Moves congests s h = ground arith
apply-Moves recovers s h = ground arith
apply-Moves resets s h = ground arith
apply-Moves client_resets s h = ground arith

streams :
    (b : Bool) (s last : VideoInstanceSm) (es : List Event)
    → s.state ≡ state_of b
    → Accepts s es last
    → Streams b es
streams false s last [] h a = tt
streams true s last [] h a = tt
streams false s last (prologue ∷ es) h (one, rest) = ground (arith, apply-Moves prologue s one)
streams false s last (generation ∷ es) h (one, rest) = ground (arith, apply-Moves generation s one)
streams false s last (encoder_config ∷ es) h (one, rest) =
    ground (arith, apply-Moves encoder_config s one)
streams false s last (first_idr ∷ es) h (one, rest) = ground (arith, apply-Moves first_idr s one)
streams false s last (congests ∷ es) h (one, rest) = inl (
  refl,
  streams true (apply congests s).0 last es (ground (arith, apply-Moves congests s one)) rest,
)
streams false s last (recovers ∷ es) h (one, rest) = ground (arith, apply-Moves recovers s one)
streams false s last (resets ∷ es) h (one, rest) = ground (arith, apply-Moves resets s one)
streams false s last (client_resets ∷ es) h (one, rest) = inr (
  refl,
  closed_refuses (apply client_resets s).0 last reset es
      (ground (arith, apply-Moves client_resets s one)) rest,
)
streams true s last (prologue ∷ es) h (one, rest) = ground (arith, apply-Moves prologue s one)
streams true s last (generation ∷ es) h (one, rest) = ground (arith, apply-Moves generation s one)
streams true s last (encoder_config ∷ es) h (one, rest) =
    ground (arith, apply-Moves encoder_config s one)
streams true s last (first_idr ∷ es) h (one, rest) = ground (arith, apply-Moves first_idr s one)
streams true s last (congests ∷ es) h (one, rest) = ground (arith, apply-Moves congests s one)
streams true s last (recovers ∷ es) h (one, rest) = inl (
  refl,
  streams false (apply recovers s).0 last es (ground (arith, apply-Moves recovers s one)) rest,
)
streams true s last (resets ∷ es) h (one, rest) = inr (
  inl refl,
  closed_refuses (apply resets s).0 last reset es (ground (arith, apply-Moves resets s one)) rest,
)
streams true s last (client_resets ∷ es) h (one, rest) = inr (
  inr refl,
  closed_refuses (apply client_resets s).0 last reset es
      (ground (arith, apply-Moves client_resets s one)) rest,
)

abbrev is_setting_up : VideoInstanceSm → Bool
is_setting_up s = elim s.state [ created ↦ true | configuring ↦ true | _ ↦ false ]

-- The one event that an instance that is being set up accepts.
abbrev next_in_set_up : VideoInstanceSm → Event
next_in_set_up s = elim s.state [
  | created ↦ prologue
  | _ ↦
      if not s.sent_generation
      then generation
      else if not s.sent_encoder_config
      then encoder_config
      else first_idr
]

only_next :
    (e : Event) (s : VideoInstanceSm)
    → is_setting_up s ≡ true
    → (apply e s).1 ≡ ok tt
    → e ≡ next_in_set_up s
only_next prologue s h one = ground (arith, apply-Moves prologue s one)
only_next generation s h one = ground (arith, apply-Moves generation s one)
only_next encoder_config s h one = ground (arith, apply-Moves encoder_config s one)
only_next first_idr s h one = ground (arith, apply-Moves first_idr s one)
only_next congests s h one = ground (arith, apply-Moves congests s one)
only_next recovers s h one = ground (arith, apply-Moves recovers s one)
only_next resets s h one = ground (arith, apply-Moves resets s one)
only_next client_resets s h one = ground (arith, apply-Moves client_resets s one)

-- The messages of the set-up in their order, and then what a streaming instance may go through.
abbrev pub Follows : List Event → List Event → Type 0
Follows [] es = Streams false es
Follows (x ∷ xs) [] = Unit {0}
Follows (x ∷ xs) (e ∷ es) = (e ≡ x) × Follows xs es

abbrev pub set_up : List Event
set_up = prologue ∷ generation ∷ encoder_config ∷ first_idr ∷ []

-- A state from which the messages that are left of the set-up are each the one expected.
abbrev Stage : List Event → VideoInstanceSm → Type 0
Stage [] s = s.state ≡ streaming
Stage (x ∷ xs) s = (is_setting_up s ≡ true) × (next_in_set_up s ≡ x) × Stage xs (apply x s).0

follows :
    (xs : List Event) (s last : VideoInstanceSm) (es : List Event)
    → Stage xs s
    → Accepts s es last
    → Follows xs es
follows [] s last es h a = streams false s last es h a
follows (x ∷ xs) s last [] h a = tt
follows (x ∷ xs) s last (e ∷ es) h a =
    let same : e ≡ x = only_next e s h.0 a.0 ∙ h.1 in
    (
      same,
      follows xs (apply x s).0 last es h.2 (subst (λ y. Accepts (apply y s).0 es last) same a.1),
    )

-- Every run of a new instance in which nothing is refused sends the prologue, one generation, one
-- encoder configuration and the first frame in this order, then becomes congested and recovers
-- in turn, and ends with a reset if there is one.
pub accepted_in_order :
    (es : List Event) (last : VideoInstanceSm) → Accepts new es last → Follows set_up es
unfolding new on_prologue_sent on_generation_sent on_encoder_config_sent on_first_idr_sent
accepted_in_order es last a =
    follows set_up new last es (refl, refl, (refl, refl, (refl, refl, (refl, refl, refl)))) a
