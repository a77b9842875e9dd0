-- ===== src/Video/Backpressure/Congestion.antt =====
-- The decisions of the congestion tracker, over the samples of one instance.
use sardp.Base.{
  ℕ, ◌+◌, ◌≤◌, ◌<◌, ◌≡◌, ◌≢◌, ◌⊎◌, ◌↔◌, refl, sym, subst, true, false, none, some, List, [], ◌∷◌,
  zero, suc, arith, inl, inr, Option-cases,
}
use sardp.Video.Backpressure.{
  CongestionTracker, BackpressureDecision, enter_congested, exit_congested, reset_stream,
  new_tracker, check_recovery, evaluate, max_video_queue_bytes, max_video_queue_duration_delta_us,
  video_rate_reduce_threshold_delta_us, congested_to_streaming_hysteresis_us,
}

pub record Sample : Type 0 where
  pub now_us : ℕ
  pub delta_us : ℕ
  pub app_send_queue_bytes : ℕ

-- The tracker of an instance after its samples, the newest first.
abbrev pub after : List Sample → CongestionTracker
after [] = new_tracker
after (x ∷ older) = (evaluate (after older) x.now_us x.delta_us x.app_send_queue_bytes).0

abbrev pub decision : Sample → List Sample → BackpressureDecision
decision x older = (evaluate (after older) x.now_us x.delta_us x.app_send_queue_bytes).1

-- No decision to reset was taken yet: the instance is still there.
abbrev pub IsOpen : List Sample → Type 0
IsOpen [] = Unit {0}
IsOpen (x ∷ older) = (decision x older ≢ reset_stream) × IsOpen older

abbrev IsHard : Sample → Type 0
IsHard x = max_video_queue_duration_delta_us < x.delta_us

-- The last `n` samples are over the hard threshold.
abbrev pub HardRun : ℕ → List Sample → Type 0
HardRun zero samples = Unit {0}
HardRun (suc n) [] = ⊥
HardRun (suc n) (x ∷ older) = IsHard x × HardRun n older

-- From the sample at `since` on, all were below the soft threshold.
abbrev pub QuietSince : ℕ → List Sample → Type 0
QuietSince since [] = ⊥
QuietSince since (x ∷ older) =
    (x.delta_us < video_rate_reduce_threshold_delta_us)
    × ((x.now_us ≡ since) ⊎ QuietSince since older)

record Inv (c : CongestionTracker) (samples : List Sample) : Type 0 where
  count : c.hard_violation_count < 3
  run : HardRun c.hard_violation_count samples
  quiet : (since : ℕ) → c.below_soft_since_us ≡ some since → QuietSince since samples
  calm : c.congested ≡ false → (c.hard_violation_count ≡ 0) × (c.below_soft_since_us ≡ none)

-- How one sample that does not reset moves the count and the quiet time.
module _ (c : CongestionTracker) (x : Sample) (older : List Sample) (inv : Inv c older)
    (go : (evaluate c x.now_us x.delta_us x.app_send_queue_bytes).1 ≢ reset_stream) where
  next : CongestionTracker
  next = (evaluate c x.now_us x.delta_us x.app_send_queue_bytes).0

  count_step :
      (next.hard_violation_count ≡ 0)
      ⊎ ((next.hard_violation_count ≡ suc c.hard_violation_count) × IsHard x)
  unfolding next evaluate check_recovery
  count_step = ground (arith, inv.calm, inv.count)

  quiet_step :
      (since : ℕ)
      → next.below_soft_since_us ≡ some since
      → (x.delta_us < video_rate_reduce_threshold_delta_us)
        × ((x.now_us ≡ since) ⊎ (c.below_soft_since_us ≡ some since))
  unfolding next evaluate check_recovery
  quiet_step since h = ground (arith, inv.calm)

  -- A hard violation that does not reset a congested instance is counted.
  hard_step :
      c.congested ≡ true
      → IsHard x
      → (next.congested ≡ true) × (next.hard_violation_count ≡ suc c.hard_violation_count)
  unfolding next evaluate check_recovery
  hard_step h hard = (ground (arith, inv.count), ground (arith, inv.count))

  step-Inv : Inv next (x ∷ older)
  unfolding next evaluate check_recovery
  step-Inv = record {
    count = ground (arith, inv.count);
    run = elim count_step [
      | inl e ↦ subst (λ n. HardRun n (x ∷ older)) (sym e) tt
      | inr (e, hard) ↦ subst (λ n. HardRun n (x ∷ older)) (sym e) (hard, inv.run)
    ];
    quiet = λ since h.
        let (low, from) = quiet_step since h in
        (low, elim from [ inl e ↦ inl e | inr e ↦ inr (inv.quiet since e) ]);
    calm = ground (arith, inv.calm);
  }

after-Inv : (samples : List Sample) → IsOpen samples → Inv (after samples) samples
unfolding new_tracker next
after-Inv [] h = record {
  count = omega arith;
  run = tt;
  quiet = λ s e. ground arith;
  calm = λ e. (refl, refl);
}
after-Inv (x ∷ older) h = step-Inv (after older) x older (after-Inv older h.1) h.0

reset_at_three :
    (x : Sample) (older : List Sample)
    → IsOpen older
    → (after older).congested ≡ true
    → IsHard x
    → 2 ≤ (after older).hard_violation_count
    → decision x older ≡ reset_stream
unfolding evaluate check_recovery
reset_at_three x older alive h hard two =
    let inv = after-Inv older alive in ground (arith, inv.count)

-- An instance is reset only for three hard violations in a row, the sample in hand being the
-- third, or for a send queue over the limit.
pub reset_justified :
    (x : Sample) (older : List Sample)
    → IsOpen older
    → decision x older ≡ reset_stream
    → HardRun 3 (x ∷ older) ⊎ (max_video_queue_bytes < x.app_send_queue_bytes)
unfolding evaluate check_recovery
reset_justified x older alive h =
    let inv = after-Inv older alive in
    let why : ((2 ≡ (after older).hard_violation_count) × IsHard x)
        ⊎ (max_video_queue_bytes < x.app_send_queue_bytes) =
      ground (arith, inv.count) in
    elim why [
      | inl (e, hard) ↦ inl (hard, subst (λ n. HardRun n older) (sym e) inv.run)
      | inr over ↦ inr over
    ]

-- While the instance is congested, the third hard violation in a row resets it.
pub third_violation_resets :
    (x y z : Sample) (older : List Sample)
    → (after older).congested ≡ true
    → IsHard x
    → IsHard y
    → IsHard z
    → IsOpen (y ∷ x ∷ older)
    → decision z (y ∷ x ∷ older) ≡ reset_stream
unfolding next
third_violation_resets x y z older h hx hy hz alive =
    let inv = after-Inv older alive.1.1 in
    let (c1, n1) = hard_step (after older) x older inv alive.1.0 h hx in
    let inv' = after-Inv (x ∷ older) alive.1 in
    let (c2, n2) = hard_step (after (x ∷ older)) y (x ∷ older) inv' alive.0 c1 hy in
    reset_at_three z (y ∷ x ∷ older) alive c2 hz (ground arith)

-- Congestion ends only when every sample since some time at least 500 ms ago, the one in hand
-- included, was below the soft threshold.
pub exit_after_quiet :
    (x : Sample) (older : List Sample)
    → IsOpen older
    → decision x older ≡ exit_congested
    → (since : ℕ) × (since + congested_to_streaming_hysteresis_us ≤ x.now_us)
      × QuietSince since (x ∷ older)
unfolding evaluate check_recovery
exit_after_quiet x older alive h = elim (Option-cases (after older).below_soft_since_us) [
  | inl e ↦ ground (arith, e)
  | inr (since, e) ↦
      (since, ground (arith, e), (ground (arith, e), inr ((after-Inv older alive).quiet since e)))
]

-- Congestion begins exactly at a sample over the soft threshold while streaming.
enter_iff :
    (x : Sample) (older : List Sample)
    → (decision x older ≡ enter_congested)
      ↔ (((after older).congested ≡ false) × (video_rate_reduce_threshold_delta_us < x.delta_us))
unfolding evaluate check_recovery
enter_iff x older = (λ h. ground arith, λ h. ground arith)
