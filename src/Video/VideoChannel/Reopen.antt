-- ===== src/Video/VideoChannel/Reopen.antt =====
-- Reopening: what a reset leaves, and how often the client's requests are honored.
use sardp.Base.{
  ℕ, ◌+◌, ◌%◌, ◌^◌, ◌≤◌, ◌<◌, ◌≡◌, ◌⊎◌, refl, ◌∙◌, inl, inr, true, none, some, ok, arith,
}
use sardp.Session.Messages.{KeyframeRequest}
use sardp.Video.Backpressure.{
  BackpressureDecision, continue, enter_congested, exit_congested, reset_stream, record_sample,
  evaluate, new_tracker,
}
use sardp.Video.ChannelSm
use sardp.Video.ChannelSm.{ChannelSm, live, recovering, may_retry}
use sardp.Video.InstanceSm
use sardp.Video.InstanceSm.{VideoInstanceSm, closed, reset, streaming, ProtocolViolation}
use sardp.Video.VideoChannel.{
  VideoChannel, on_feedback, follow_decision, queue_delta, on_keyframe_request, honor_request,
  prepare_reopen, mark_instance_streaming, activate, deactivate, reopen, ignored, rate_limited,
  next_allowed_at_us, keyframe_request_min_interval_us,
}

-- Whatever the channel was, to prepare a reopening and then to set the new instance up succeeds:
-- the channel is live with an instance that streams, uncongested, in the next generation, with
-- the baseline and the time of the last reopening that it had, and with no wait before a retry.
pub reopen_streams :
    (v : VideoChannel)
    → mark_instance_streaming (prepare_reopen v).0 ≡ (
      record {
        channel_sm = record { state = live; retry_attempt = 0; next_retry_allowed_at_us = none };
        baseline = v.baseline;
        congestion = new_tracker;
        instance_sm = record {
          state = streaming;
          sent_generation = true;
          sent_encoder_config = true;
        };
        generation = (v.generation + 1) % 2 ^ 64;
        last_reopen_us = v.last_reopen_us;
      },
      ok tt,
    )
unfolding prepare_reopen mark_instance_streaming InstanceSm.new InstanceSm.on_prologue_sent
    InstanceSm.on_generation_sent InstanceSm.on_encoder_config_sent InstanceSm.on_first_idr_sent
    ChannelSm.on_instance_streaming
reopen_streams v = refl

-- `RunsFrom t v w`: calls lead from `v` to `w`, each one with a time made at `t` or later.
pub data RunsFrom (t : ℕ) (v : VideoChannel) : VideoChannel → Type 0 where
  start : RunsFrom t v v
  then_feedback :
      (w : VideoChannel) (now delay bytes : ℕ)
      → RunsFrom t v w
      → t ≤ now
      → RunsFrom t v (on_feedback w now delay bytes).0
  then_request :
      (w : VideoChannel) (now : ℕ) (r : KeyframeRequest)
      → RunsFrom t v w
      → t ≤ now
      → RunsFrom t v (on_keyframe_request w now r).0
  then_prepare : (w : VideoChannel) → RunsFrom t v w → RunsFrom t v (prepare_reopen w).0
  then_stream : (w : VideoChannel) → RunsFrom t v w → RunsFrom t v (mark_instance_streaming w).0
  then_focus : (w : VideoChannel) → RunsFrom t v w → RunsFrom t v (activate w)
  then_unfocus : (w : VideoChannel) → RunsFrom t v w → RunsFrom t v (deactivate w)

-- There was a reopening, at `t` or later.
abbrev ReopenedSince : ℕ → VideoChannel → Type 0
ReopenedSince t v = (last : ℕ) × (v.last_reopen_us ≡ some last) × (t ≤ last)

-- Each call leaves the time of the last reopening, or sets it to its own.
follow_reopens :
    (d : BackpressureDecision) (now : ℕ) (v : VideoChannel)
    → ((follow_decision d now v).0.last_reopen_us ≡ v.last_reopen_us)
      ⊎ ((follow_decision d now v).0.last_reopen_us ≡ some now)
unfolding follow_decision InstanceSm.on_congested InstanceSm.on_recovered InstanceSm.on_reset
follow_reopens continue now v = inl refl
follow_reopens enter_congested now v = inl refl
follow_reopens exit_congested now v = inl refl
follow_reopens reset_stream now v = ground arith

feedback_state :
    (v : VideoChannel) (now delay bytes : ℕ)
    → let baseline = record_sample v.baseline now delay in
      let counted = evaluate v.congestion now (queue_delta baseline delay) bytes in
      (on_feedback v now delay bytes).0
      ≡ (follow_decision counted.1 now (record v { baseline = baseline; congestion = counted.0 })).0
unfolding on_feedback
feedback_state v now delay bytes = ground arith

feedback_reopens :
    (v : VideoChannel) (now delay bytes : ℕ)
    → ((on_feedback v now delay bytes).0.last_reopen_us ≡ v.last_reopen_us)
      ⊎ ((on_feedback v now delay bytes).0.last_reopen_us ≡ some now)
feedback_reopens v now delay bytes =
    let baseline = record_sample v.baseline now delay in
    let counted = evaluate v.congestion now (queue_delta baseline delay) bytes in
    let same = feedback_state v now delay bytes in
    rw same
      (follow_reopens counted.1 now (record v { baseline = baseline; congestion = counted.0 }))

request_reopens :
    (v : VideoChannel) (now : ℕ) (r : KeyframeRequest)
    → ((on_keyframe_request v now r).0.last_reopen_us ≡ v.last_reopen_us)
      ⊎ ((on_keyframe_request v now r).0.last_reopen_us ≡ some now)
unfolding on_keyframe_request honor_request InstanceSm.on_client_requested_reset
request_reopens v now r = ground arith

stream_reopens :
    (v : VideoChannel) → (mark_instance_streaming v).0.last_reopen_us ≡ v.last_reopen_us
unfolding mark_instance_streaming
stream_reopens v = ground arith

keeps_later :
    (t now : ℕ) (v w : VideoChannel)
    → t ≤ now
    → (w.last_reopen_us ≡ v.last_reopen_us) ⊎ (w.last_reopen_us ≡ some now)
    → ReopenedSince t v
    → ReopenedSince t w
keeps_later t now v w h (inl e) (last, at, later) = (last, e ∙ at, later)
keeps_later t now v w h (inr e) (last, at, later) = (now, e, h)

run-ReopenedSince :
    (t : ℕ) (v w : VideoChannel) → RunsFrom t v w → ReopenedSince t v → ReopenedSince t w
unfolding prepare_reopen activate deactivate
run-ReopenedSince t v w start h = h
run-ReopenedSince t v w' (then_feedback w now delay bytes run le) h =
    keeps_later t now w w' le (feedback_reopens w now delay bytes) (run-ReopenedSince t v w run h)
run-ReopenedSince t v w' (then_request w now r run le) h =
    keeps_later t now w w' le (request_reopens w now r) (run-ReopenedSince t v w run h)
run-ReopenedSince t v w' (then_prepare w run) h = run-ReopenedSince t v w run h
run-ReopenedSince t v w' (then_stream w run) h =
    keeps_later t t w w' (omega arith) (inl (stream_reopens w)) (run-ReopenedSince t v w run h)
run-ReopenedSince t v w' (then_focus w run) h = run-ReopenedSince t v w run h
run-ReopenedSince t v w' (then_unfocus w run) h = run-ReopenedSince t v w run h

request_honored :
    (v : VideoChannel) (t : ℕ) (r : KeyframeRequest)
    → (on_keyframe_request v t r).1 ≡ reopen
    → (on_keyframe_request v t r).0.last_reopen_us ≡ some t
unfolding on_keyframe_request honor_request InstanceSm.on_client_requested_reset
request_honored v t r h = ground arith

request_limited :
    (w : VideoChannel) (last now : ℕ) (s : KeyframeRequest)
    → w.last_reopen_us ≡ some last
    → now < next_allowed_at_us last
    → on_keyframe_request w now s ≡ (w, ignored (rate_limited (next_allowed_at_us last)))
unfolding on_keyframe_request
request_limited w last now s at soon = ground arith

-- Two requests that are honored are at least 1 s apart: after a request was honored at `t`, and
-- whatever calls follow, at `t` or later, every request until `t` and the interval is ignored, and
-- leaves the channel as it is. (Clock values stay below the top of a `u64`.)
pub requests_spaced :
    (v w : VideoChannel) (t now : ℕ) (r s : KeyframeRequest)
    → (on_keyframe_request v t r).1 ≡ reopen
    → RunsFrom t (on_keyframe_request v t r).0 w
    → now < t + keyframe_request_min_interval_us
    → t + keyframe_request_min_interval_us < 2 ^ 64
    → (last : ℕ) × (on_keyframe_request w now s
        ≡ (w, ignored (rate_limited (next_allowed_at_us last))))
requests_spaced v w t now r s honored run soon small =
    let v' = (on_keyframe_request v t r).0 in
    let (last, at, later) =
      run-ReopenedSince t v' w run (t, request_honored v t r honored, omega arith) in
    (last, request_limited w last now s at (ground arith))
