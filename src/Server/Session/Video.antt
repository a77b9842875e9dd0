-- ===== src/Server/Session/Video.antt =====
-- sardp-cli/src/bin/sardp-server.rs: frames, and the generations that carry them.
use sardp.Base.{ℕ, zero, suc, ◌+◌, ◌%◌, ◌^◌, Option, ok, if◌then◌else◌}
use sardp.Base.Action.{◌>>=◌, ◌>>◌, pure, fail, modify, get, let_some}
use sardp.Session.ReasonCode.{protocol_video_configuring_timeout}
use sardp.Video.Backpressure.{BackpressureDecision, reset_stream}
use sardp.Video.VideoChannel.{
  KeyframeRequestDecision, reopen, ignored, on_feedback, on_keyframe_request, prepare_reopen,
  mark_instance_streaming,
}
use sardp.Server.Foreign.{Foreign}
use sardp.Server.ConnError.{violation, video, capture}
use sardp.Server.Messages.{FeedbackMessage, transport, audio_sync, keyframe}
use sardp.Server.Session.{
  SourcedFrame, Network, SessionAction, Flow, next_round, Timed, in_time, elapsed_before,
  elapsed_after, opened_generation, reset_video, video_frame, hand_over, note, on_channel,
}

abbrev pub max_frames_to_skip_for_idr : ℕ
max_frames_to_skip_for_idr = 120

module _ {F : Foreign} (n : Network F) where
  unfoldable pub next_frame : SessionAction F (Option SourcedFrame)
  next_frame s = (record s { frames_taken = s.frames_taken + 1 }, n.next_frame s.frames_taken)

  unfoldable pub send_sourced_frame : ℕ → ℕ → SourcedFrame → SessionAction F (Unit {0})
  send_sourced_frame generation frame_id frame =
      hand_over (video_frame generation frame_id frame) video n.frame_sent

  -- The loop over the frames that are skipped.
  unfoldable pub skip_to_idr : ℕ → SessionAction F SourcedFrame
  unfolding next_frame
  skip_to_idr zero = fail (capture "no IDR from the encoder within 120 frames")
  skip_to_idr (suc tries) =
      let rest = skip_to_idr tries in
      next_frame >>= λ frame.
      let_some frame (fail (capture "desktop capture stopped"))
        (λ f. if f.is_idr then pure f else rest)

  unfoldable pub next_idr_frame : SessionAction F SourcedFrame
  unfolding skip_to_idr
  next_idr_frame = skip_to_idr max_frames_to_skip_for_idr

  unfoldable pub open_generation : ℕ → ℕ → SessionAction F (Unit {0})
  unfolding next_idr_frame
  open_generation generation config_id = do
    idr ← next_idr_frame
    hand_over (opened_generation generation config_id idr) video n.instance_opened

  -- The opening under `VIDEO_CONFIGURING_TIMEOUT`.
  unfoldable pub open_in_time : Timed → ℕ → ℕ → SessionAction F (Unit {0})
  unfolding open_generation
  open_in_time in_time generation config_id = open_generation generation config_id
  open_in_time elapsed_before generation config_id =
      fail (violation protocol_video_configuring_timeout)
  open_in_time elapsed_after generation config_id = do
    open_generation generation config_id
    fail (violation protocol_video_configuring_timeout)

  unfoldable pub reopen_video_generation : SessionAction F (Unit {0})
  unfolding open_in_time
  reopen_video_generation = do
    note reset_video
    new_generation ← on_channel (λ v. let (v', g) = prepare_reopen v in (v', ok g))
    s ← get
    open_in_time (n.configuring s.frames_taken) new_generation 1
    on_channel mark_instance_streaming

  -- A reopening, and the count of frames from 1.
  unfoldable pub reopen_and_restart : SessionAction F (Unit {0})
  unfolding reopen_video_generation
  reopen_and_restart = do reopen_video_generation; modify (λ s. record s { frame_id = 1 })

  unfoldable pub follow_keyframe : KeyframeRequestDecision → SessionAction F Flow
  unfolding reopen_and_restart
  follow_keyframe reopen = do reopen_and_restart; pure next_round
  follow_keyframe (ignored why) = pure next_round

  unfoldable pub follow_backpressure : BackpressureDecision → SessionAction F Flow
  unfolding reopen_and_restart
  follow_backpressure reset_stream = do reopen_and_restart; pure next_round
  follow_backpressure _ = pure next_round

  -- The `feedback` arm, of a message that was read.
  unfoldable pub handle_feedback : ℕ → FeedbackMessage → SessionAction F Flow
  unfolding follow_keyframe follow_backpressure
  handle_feedback now_us (transport feedback) = do
    decision ← on_channel (λ v. on_feedback v now_us feedback.client_queue_delay_us 0)
    follow_backpressure decision
  handle_feedback now_us (keyframe request) = do
    decision ← on_channel (λ v. let (v', d) = on_keyframe_request v now_us request in (v', ok d))
    follow_keyframe decision
  handle_feedback now_us (audio_sync feedback) = pure next_round

  -- A frame on the current instance.
  unfoldable pub send_next : SourcedFrame → SessionAction F Flow
  unfolding send_sourced_frame
  send_next frame = do
    s ← get
    send_sourced_frame s.video_channel.generation s.frame_id frame
    modify (λ t. record t { frame_id = (t.frame_id + 1) % 2 ^ 64 })
    pure next_round
