-- ===== src/Server/Session/Invariant/Feedback.antt =====
-- Feedback, and the frames on the instance that is open, keep the invariant.
use sardp.Base.{ℕ, ◌+◌, ◌%◌, ◌^◌, ◌≡◌, ◌≢◌, ◌⊎◌, ◌∷◌, refl, ap, ◌∙◌, inl, inr, true, ok, arith}
use sardp.Base.Action.{Ends, returns, bind-Ends}
use sardp.Session.Messages.{KeyframeRequest}
use sardp.Permission.PermissionSet.{view}
use sardp.Permission.PermissionSm.{is_granted}
use sardp.Video.Backpressure.{
  BackpressureDecision, continue, enter_congested, exit_congested, reset_stream,
}
use sardp.Video.InstanceSm
use sardp.Video.InstanceSm.{InstanceState, streaming, congested}
use sardp.Video.VideoChannel.{
  VideoChannel, reopen, on_feedback, follow_decision, on_keyframe_request, honor_request,
}
use sardp.Video.VideoChannel.Sync.{
  IsInSync, IsSending, state_after, feedback_never_refused, requests, apply-IsInSync,
}
use sardp.Server.Foreign.{Foreign}
use sardp.Server.Messages.{FeedbackMessage, transport, audio_sync, keyframe}
use sardp.Server.Session.{Network, SessionState, SourcedFrame, next_round, video_frame, on_channel}
use sardp.Server.Session.Video.{handle_feedback, send_next, send_sourced_frame}
use sardp.Server.Session.Invariant.{expected, IsSound, IsReady, IsCurrentAt, log-IsSound}
use sardp.Server.Session.Invariant.Frames.{
  Left, Ready, hand_over-Ends, on_channel-Ends, follow_backpressure-Ends, follow_keyframe-Ends,
}

feedback-generation :
    (v : VideoChannel) (now delay bytes : ℕ)
    → (on_feedback v now delay bytes).0.generation ≡ v.generation
unfolding on_feedback follow_decision InstanceSm.on_congested InstanceSm.on_recovered
    InstanceSm.on_reset
feedback-generation v now delay bytes = ground arith

request-unless_reopen :
    (v : VideoChannel) (now : ℕ) (r : KeyframeRequest)
    → IsSending v
    → ((on_keyframe_request v now r).0.generation ≡ v.generation)
      × ((on_keyframe_request v now r).1 ≢ reopen → IsSending (on_keyframe_request v now r).0)
unfolding on_keyframe_request honor_request InstanceSm.on_client_requested_reset
request-unless_reopen v now r sending = ground arith

still_sending :
    (d : BackpressureDecision) (s t : InstanceState)
    → t ≡ state_after d s
    → (s ≡ streaming) ⊎ (s ≡ congested)
    → d ≢ reset_stream
    → (t ≡ streaming) ⊎ (t ≡ congested)
still_sending continue s t e sending h = ground arith
still_sending enter_congested s t e sending h = inr e
still_sending exit_congested s t e sending h = inl e
still_sending reset_stream s t e sending h = absurd (h refl)

module _ {F : Foreign} (n : Network F) (granted start : ℕ) where
  -- What a decision leaves to be followed, unless it is to reopen.
  abbrev IsDecided : {D : Type 0} → D → D → SessionState → Type 0
  IsDecided to_reopen d s =
      IsSound granted start s
      × ((s.video_channel.generation, s.frame_id) ≡ expected start s.sent)
      × (d ≢ to_reopen → IsInSync s.video_channel × IsSending s.video_channel)

  transport-IsDecided :
      (now delay : ℕ) (s : SessionState)
      → IsReady granted start s
      → Ends
          (IsDecided reset_stream)
          (Left n granted start)
          (on_channel {F = F} (λ v. on_feedback v now delay 0) s)
  transport-IsDecided now delay s (sound, current) =
      let v = s.video_channel in
      let (d, accepted, state, sync) =
        feedback_never_refused v now delay 0 current.in_sync current.sending in
      let v' = (on_feedback v now delay 0).0 in
      on_channel-Ends (λ v. on_feedback v now delay 0) s d accepted
        (
          sound,
          ap (λ g. (g, s.frame_id)) (feedback-generation v now delay 0) ∙ current.counted,
          λ goes_on. (
            sync,
            still_sending d v.instance_sm.state v'.instance_sm.state state current.sending goes_on,
          ),
        )

  keyframe-IsDecided :
      (now : ℕ) (r : KeyframeRequest) (s : SessionState)
      → IsReady granted start s
      → Ends
          (IsDecided reopen)
          (Left n granted start)
          (on_channel {F = F} (λ v. let (v', d) = on_keyframe_request v now r in (v', ok d)) s)
  keyframe-IsDecided now r s (sound, current) =
      let v = s.video_channel in
      let (same, unless) = request-unless_reopen v now r current.sending in
      returns _ _ (
        sound,
        ap (λ g. (g, s.frame_id)) same ∙ current.counted,
        λ goes_on. (apply-IsInSync (requests now r) v current.in_sync, unless goes_on),
      )

  -- Whatever the client reports or asks for, the channel refuses nothing: the round ends with a
  -- generation that streams, or with an error of what was called.
  pub handle_feedback-Ends :
      (now : ℕ) (m : FeedbackMessage) (s : SessionState)
      → IsReady granted start s
      → Ends (Ready n granted start) (Left n granted start) (handle_feedback n now m s)
  unfolding handle_feedback
  handle_feedback-Ends now (transport f) s h =
      bind-Ends _ _ (transport-IsDecided now f.client_queue_delay_us s h)
        λ d t (sound, counted, live).
          follow_backpressure-Ends n granted start d t sound counted live
  handle_feedback-Ends now (keyframe r) s h =
      bind-Ends _ _ (keyframe-IsDecided now r s h)
        λ d t (sound, counted, live). follow_keyframe-Ends n granted start d t sound counted live
  handle_feedback-Ends now (audio_sync f) s h = returns next_round s h

  -- The state that a frame leaves, before it is counted.
  abbrev IsUncounted : Unit {0} → SessionState → Type 0
  IsUncounted u s =
      IsSound granted start s
      × IsCurrentAt granted start s.sent s.video_channel ((s.frame_id + 1) % 2 ^ 64)

  send_sourced_frame-Ends :
      (frame : SourcedFrame) (s : SessionState)
      → is_granted s.permission_sm view ≡ true
      → IsReady granted start s
      → Ends IsUncounted
          (Left n granted start)
          (send_sourced_frame n s.video_channel.generation s.frame_id frame s)
  unfolding send_sourced_frame
  send_sourced_frame-Ends frame s allowed (sound, current) =
      let logged =
        log-IsSound granted start s (video_frame s.video_channel.generation s.frame_id frame) refl
          allowed (current.counted, sound.in_sequence) sound in
      let counts : IsCurrentAt granted start
          (video_frame s.video_channel.generation s.frame_id frame ∷ s.sent) s.video_channel
          ((s.frame_id + 1) % 2 ^ 64) =
        record { counted = refl; in_sync = current.in_sync; sending = current.sending } in
      hand_over-Ends _ _ _ s (logged, counts) (λ e. logged)

  -- A frame that VIEW covers.
  pub send_next-Ends :
      (frame : SourcedFrame) (s : SessionState)
      → is_granted s.permission_sm view ≡ true
      → IsReady granted start s
      → Ends (Ready n granted start) (Left n granted start) (send_next n frame s)
  unfolding send_next
  send_next-Ends frame s allowed h =
      bind-Ends _ _ (send_sourced_frame-Ends frame s allowed h) λ u t r. returns next_round _ r
