-- ===== src/Server/Session/Invariant/Frames.antt =====
-- The rounds' parts that concern the video keep the invariant.
use sardp.Base.{
  ℕ, zero, suc, ◌+◌, ◌%◌, ◌^◌, ◌≡◌, ◌≢◌, refl, sym, ap, ◌∙◌, subst, false, ◌∷◌, Result, ok, map_err,
  arith,
}
use sardp.Base.Action.{Ends, returns, raises, bind-Ends, if-Ends, pair-Ends, let_some-Ends}
use sardp.Video.Backpressure.{BackpressureDecision, reset_stream, new_tracker}
use sardp.Video.InstanceSm
use sardp.Video.InstanceSm.{ProtocolViolation}
use sardp.Video.VideoChannel.Sync.{IsInSync, IsSending}
use sardp.Video.VideoChannel.{
  VideoChannel, KeyframeRequestDecision, reopen, ignored, prepare_reopen, mark_instance_streaming,
}
use sardp.Server.Foreign.{Foreign}
use sardp.Server.ConnError.{ConnError, violation}
use sardp.Server.Session.{
  Sent, Network, SessionState, next_round, Timed, in_time, elapsed_before, elapsed_after,
  SourcedFrame, opened_generation, reset_video, hand_over, on_channel,
}
use sardp.Server.Session.Video.{
  next_frame, skip_to_idr, next_idr_frame, open_generation, open_in_time,
  max_frames_to_skip_for_idr, reopen_video_generation, reopen_and_restart, follow_keyframe,
  follow_backpressure,
}
use sardp.Server.Session.Invariant.{expected, IsSound, IsReady, IsCurrentAt, log-IsSound}

module _ {F : Foreign} (n : Network F) (P : SessionState → Type 0)
    (J : ConnError F → SessionState → Type 0)
    (leaves : (e : ConnError F) (s : SessionState) → P s → J e s)
    (keeps : (s : SessionState) (k : ℕ) → P s → P (record s { frames_taken = k })) where
  pub next_frame-Ends : (s : SessionState) → P s → Ends (λ f. P) J (next_frame n s)
  unfolding next_frame
  next_frame-Ends s h =
      let p = keeps s (s.frames_taken + 1) h in
      pair-Ends _ (n.next_frame s.frames_taken) (λ f. p) (λ e. leaves e _ p)

  skip_to_idr-Ends : (tries : ℕ) (s : SessionState) → P s → Ends (λ f. P) J (skip_to_idr n tries s)
  unfolding skip_to_idr
  skip_to_idr-Ends zero s h = raises _ s (leaves _ s h)
  skip_to_idr-Ends (suc tries) s h = bind-Ends (next_frame n s) _ (next_frame-Ends s h) λ frame t p.
      let_some-Ends frame _ _ t (raises _ t (leaves _ t p))
        λ f. if-Ends f.is_idr _ _ t (λ idr. returns f t p) (λ other. skip_to_idr-Ends tries t p)

module _ {F : Foreign} {A : Type 0} {Q : A → SessionState → Type 0}
    {J : ConnError F → SessionState → Type 0} where
  -- A method of the channel that succeeds.
  pub on_channel-Ends :
      (f : VideoChannel → VideoChannel × Result ProtocolViolation A) (s : SessionState) (a : A)
      → (f s.video_channel).1 ≡ ok a
      → Q a (record s { video_channel = (f s.video_channel).0 })
      → Ends Q J (on_channel f s)
  on_channel-Ends f s a e q =
      let t = record s { video_channel = (f s.video_channel).0 } in
      subst (λ r. Ends Q J (t, map_err (λ v. violation v.reason) r)) (sym e) (returns a t q)

module _ {F : Foreign} {Q : Unit {0} → SessionState → Type 0}
    {J : ConnError F → SessionState → Type 0} where
  -- Whatever the transport answers, the entry is made.
  pub hand_over-Ends :
      {E : Type 0} (x : Sent) (wrap : E → ConnError F) (answer : ℕ → Result E (Unit {0}))
      (s : SessionState)
      → Q tt (record s { sent = x ∷ s.sent })
      → ((e : ConnError F) → J e (record s { sent = x ∷ s.sent }))
      → Ends Q J (hand_over x wrap answer s)
  unfolding hand_over
  hand_over-Ends x wrap answer s q j = pair-Ends _ _ (λ u. q) j

-- A channel whose instance is new.
abbrev IsFresh : VideoChannel → Type 0
IsFresh v = (v.instance_sm ≡ InstanceSm.new) × (v.congestion.congested ≡ false)

mark-IsFresh :
    (v : VideoChannel)
    → IsFresh v
    → let v' = (mark_instance_streaming v).0 in
      ((mark_instance_streaming v).1 ≡ ok tt)
      × (v'.generation ≡ v.generation)
      × IsInSync v'
      × IsSending v'
unfolding mark_instance_streaming InstanceSm.new InstanceSm.on_prologue_sent
    InstanceSm.on_generation_sent InstanceSm.on_encoder_config_sent InstanceSm.on_first_idr_sent
mark-IsFresh v h = ground arith

prepare-IsFresh :
    (v : VideoChannel)
    → IsFresh (prepare_reopen v).0
      × ((prepare_reopen v).1 ≡ (v.generation + 1) % 2 ^ 64)
      × ((prepare_reopen v).0.generation ≡ (v.generation + 1) % 2 ^ 64)
unfolding prepare_reopen new_tracker
prepare-IsFresh v = ((refl, refl), refl, refl)

module _ {F : Foreign} (n : Network F) (granted start : ℕ) where
  -- What an error leaves, and what a part of a round ends with.
  abbrev pub Left : ConnError F → SessionState → Type 0
  Left e s = IsSound granted start s

  abbrev pub Ready : {A : Type 0} → A → SessionState → Type 0
  Ready a s = IsReady granted start s

  -- Between the steps of a reopening: the generation that comes next, and then the one that is open.
  abbrev IsBumped : SessionState → Type 0
  IsBumped s =
      IsSound granted start s
      × IsFresh s.video_channel
      × (s.video_channel.generation ≡ ((expected start s.sent).0 + 1) % 2 ^ 64)

  abbrev IsOpen : SessionState → Type 0
  IsOpen s =
      IsSound granted start s
      × IsFresh s.video_channel
      × ((s.video_channel.generation, 1) ≡ expected start s.sent)

  -- The entry of the generation that was bumped.
  opened-IsOpen :
      (s : SessionState) (g c : ℕ) (idr : SourcedFrame)
      → g ≡ s.video_channel.generation
      → IsBumped s
      → IsOpen (record s { sent = opened_generation g c idr ∷ s.sent })
  opened-IsOpen s g c idr same (sound, fresh, next) = (
    log-IsSound granted start s (opened_generation g c idr) refl tt (same ∙ next, sound.in_sequence)
        sound,
    fresh,
    ap (λ k. (k, 1)) (sym same),
  )

  open_generation-Ends :
      (s : SessionState) (g c : ℕ)
      → g ≡ s.video_channel.generation
      → IsBumped s
      → Ends (λ u. IsOpen) Left (open_generation n g c s)
  unfolding open_generation next_idr_frame
  open_generation-Ends s g c same h =
      let Before : SessionState → Type 0 = λ t. (g ≡ t.video_channel.generation) × IsBumped t in
      bind-Ends _ _
        (skip_to_idr-Ends n Before Left (λ e t p. p.1.0) (λ t k p. p) max_frames_to_skip_for_idr s
          (same, h))
        λ f t p.
          let open_now = opened-IsOpen t g c f p.0 p.1 in
          hand_over-Ends _ _ _ t open_now (λ e. open_now.0)

  open_in_time-Ends :
      (timed : Timed) (s : SessionState) (g c : ℕ)
      → g ≡ s.video_channel.generation
      → IsBumped s
      → Ends (λ u. IsOpen) Left (open_in_time n timed g c s)
  unfolding open_in_time
  open_in_time-Ends in_time s g c same h = open_generation-Ends s g c same h
  open_in_time-Ends elapsed_before s g c same h = raises _ s h.0
  open_in_time-Ends elapsed_after s g c same h =
      bind-Ends _ _ (open_generation-Ends s g c same h) λ u t o. raises _ t o.0

  streaming-IsReady :
      (s : SessionState)
      → IsOpen s
      → Ends
          (λ u t. IsSound granted start t × IsCurrentAt granted start t.sent t.video_channel 1)
          Left
          (on_channel {F = F} mark_instance_streaming s)
  streaming-IsReady s (sound, fresh, open_now) =
      let (done, same, sync, sending) = mark-IsFresh s.video_channel fresh in
      on_channel-Ends mark_instance_streaming s tt done (
        sound,
        record { counted = ap (λ k. (k, 1)) same ∙ open_now; in_sync = sync; sending = sending },
      )

  reopen-IsReady :
      (s : SessionState)
      → IsSound granted start s
      → (expected start s.sent).0 ≡ s.video_channel.generation
      → Ends
          (λ u t. IsSound granted start t × IsCurrentAt granted start t.sent t.video_channel 1)
          Left
          (reopen_video_generation n s)
  unfolding reopen_video_generation
  reopen-IsReady s sound current =
      let (fresh, bumped, kept) = prepare-IsFresh s.video_channel in
      let noted = log-IsSound granted start s reset_video refl tt sound.in_sequence sound in
      let next = kept ∙ ap (λ g. (g + 1) % 2 ^ 64) (sym current) in
      bind-Ends _ _
        (open_in_time-Ends (n.configuring s.frames_taken) _ _ 1 (bumped ∙ sym kept)
          (noted, fresh, next))
        λ u t o. streaming-IsReady t o

  -- A reopening, from wherever the channel is: the next generation streams, or an error was left.
  reopen_and_restart-Ends :
      (s : SessionState)
      → IsSound granted start s
      → (expected start s.sent).0 ≡ s.video_channel.generation
      → Ends Ready Left (reopen_and_restart n s)
  unfolding reopen_and_restart
  reopen_and_restart-Ends s sound current =
      bind-Ends _ _ (reopen-IsReady s sound current) λ u t r. returns tt _ r

  pub follow_backpressure-Ends :
      (d : BackpressureDecision) (s : SessionState)
      → IsSound granted start s
      → (s.video_channel.generation, s.frame_id) ≡ expected start s.sent
      → (d ≢ reset_stream → IsInSync s.video_channel × IsSending s.video_channel)
      → Ends Ready Left (follow_backpressure n d s)
  unfolding follow_backpressure
  follow_backpressure-Ends reset_stream s sound counted live =
      bind-Ends _ _ (reopen_and_restart-Ends s sound (ap (λ p. p.0) (sym counted)))
        λ u t r. returns next_round t r
  follow_backpressure-Ends _ s sound counted live =
      let (sync, sending) = live (λ e. cc) in
      returns next_round s (sound, record { counted = counted; in_sync = sync; sending = sending })

  pub follow_keyframe-Ends :
      (d : KeyframeRequestDecision) (s : SessionState)
      → IsSound granted start s
      → (s.video_channel.generation, s.frame_id) ≡ expected start s.sent
      → (d ≢ reopen → IsInSync s.video_channel × IsSending s.video_channel)
      → Ends Ready Left (follow_keyframe n d s)
  unfolding follow_keyframe
  follow_keyframe-Ends reopen s sound counted live =
      bind-Ends _ _ (reopen_and_restart-Ends s sound (ap (λ p. p.0) (sym counted)))
        λ u t r. returns next_round t r
  follow_keyframe-Ends (ignored why) s sound counted live =
      let (sync, sending) = live (λ e. cc) in
      returns next_round s (sound, record { counted = counted; in_sync = sync; sending = sending })
