-- ===== src/Video/CircuitBreaker/Episodes.antt =====
-- One request for each episode of congestion.
use sardp.Base.{ℕ, ◌<◌, ◌≡◌, refl, ◌⊎◌, inl, true, false, Option, some, List, [], ◌∷◌, arith}
use sardp.Session.Messages.{KeyframeRequest}
use sardp.Video.CircuitBreaker.{ClientQueueCircuitBreaker, observe}

-- The breaker after its measurements, the newest first, and what it asks at one more.
module _ (start : ClientQueueCircuitBreaker) where
  abbrev pub after : List ℕ → ClientQueueCircuitBreaker
  after [] = start
  after (age ∷ older) = (observe (after older) age).0

  abbrev pub asks : ℕ → List ℕ → Option KeyframeRequest
  asks age older = (observe (after older) age).1

abbrev pub HasBelow : ℕ → List ℕ → Type 0
HasBelow limit [] = ⊥
HasBelow limit (age ∷ ages) = (age < limit) ⊎ HasBelow limit ages

thresholds-after :
    (b : ClientQueueCircuitBreaker) (ages : List ℕ)
    → ((after b ages).trip_threshold_us ≡ b.trip_threshold_us)
      × ((after b ages).rearm_threshold_us ≡ b.rearm_threshold_us)
unfolding observe
thresholds-after b [] = (refl, refl)
thresholds-after b (age ∷ older) = ground (arith, thresholds-after b older)

-- Once it has tripped it is tripped until an age below the lower threshold.
tripped-after :
    (b : ClientQueueCircuitBreaker) (ages : List ℕ)
    → b.tripped ≡ true
    → ((after b ages).tripped ≡ true) ⊎ HasBelow b.rearm_threshold_us ages
unfolding observe
tripped-after b [] h = inl h
tripped-after b (age ∷ older) h = ground (arith, thresholds-after b older, tripped-after b older h)

observe-some :
    (b : ClientQueueCircuitBreaker) (age : ℕ) (r : KeyframeRequest)
    → (observe b age).1 ≡ some r
    → (b.tripped ≡ false) × (b.trip_threshold_us < age) × ((observe b age).0.tripped ≡ true)
unfolding observe
observe-some b age r h = (ground arith, ground arith, ground arith)

-- Between two requests, at `first` and at `last`, one of the measurements was below the lower
-- threshold; and each request is for an age over the upper one.
pub one_request_an_episode :
    (b : ClientQueueCircuitBreaker) (first last : ℕ) (between : List ℕ) (r s : KeyframeRequest)
    → (observe b first).1 ≡ some r
    → asks (observe b first).0 last between ≡ some s
    → HasBelow b.rearm_threshold_us between
      × (b.trip_threshold_us < first)
      × (b.trip_threshold_us < last)
one_request_an_episode b first last between r s h k =
    let b' = (observe b first).0 in
    let (armed, over, is_tripped) = observe-some b first r h in
    let (same_trip, same_rearm) = thresholds-after b' between in
    let (armed', over', again) = observe-some (after b' between) last s k in
    let (kept_trip, kept_rearm) = thresholds-after b (first ∷ []) in
    (ground (arith, tripped-after b' between is_tripped), over, omega arith)
