-- ===== src/Tests/Channels.antt =====
-- Video: delays, decisions, set-up, reopening, focus.
use sardp.Base.{
  ℕ, ◌+◌, ◌-◌, ◌≤◌, ◌<◌, ◌≡◌, ◌↔◌, ◌⊎◌, inl, refl, true, false, none, some, List, [], ◌∷◌, ok,
  arith,
}
use sardp.Base.Eq.{nat_eq}
use sardp.Session.Messages.{KeyframeRequest, decode_error}
use sardp.Video.Backpressure.{
  BackpressureDecision, reset_stream, baseline_us, max_video_queue_bytes, new_tracker, evaluate,
  check_recovery,
}
use sardp.Video.Backpressure.Deque.{min_since}
use sardp.Video.Backpressure.Baseline.{after, rolling_minimum}
use sardp.Video.Backpressure.Congestion
use sardp.Video.Backpressure.Congestion.{
  Sample, decision, HardRun, QuietSince, IsOpen, reset_justified, third_violation_resets,
  exit_after_quiet,
}
use sardp.Video.ChannelSm
use sardp.Video.ChannelSm.{ChannelSm, may_retry, live, paused, initializing}
use sardp.Video.ChannelSm.Backoff.{episode, backoff_us, retries_back_off}
use sardp.Video.InstanceSm
use sardp.Video.InstanceSm.{VideoInstanceSm, streaming}
use sardp.Video.InstanceSm.Setup.{
  Event, prologue, generation, encoder_config, first_idr, congests, Accepts, Follows, set_up,
  accepted_in_order,
}
use sardp.Video.VideoChannel.{
  VideoChannel, on_feedback, on_keyframe_request, reopen, ignored, rate_limited, next_allowed_at_us,
  honor_request,
}
use sardp.Video.VideoChannel.Sync.{IsInSync, state_after, feedback_never_refused}
use sardp.Video.VideoChannel.Reopen.{start, requests_spaced}
use sardp.Video.MonitorManager.{MonitorManager}
use sardp.Video.CircuitBreaker.{ClientQueueCircuitBreaker, observe}
use sardp.Video.CircuitBreaker.Episodes.{asks, HasBelow, one_request_an_episode}

-- A delay of 40 ms that expired, and two that did not.
rolling_minimum_example :
    baseline_us (after 100 ((250, 70) ∷ (200, 90) ∷ (120, 40) ∷ []))
    ≡ min_since (250 - 100) ((250, 70) ∷ (200, 90) ∷ (120, 40) ∷ [])
rolling_minimum_example =
    rolling_minimum 100 250 70 ((200, 90) ∷ (120, 40) ∷ [])
      ((omega arith, (omega arith, tt)), ((omega arith, tt), (tt, tt)))

abbrev sample : ℕ → ℕ → Sample
sample now delta = record { now_us = now; delta_us = delta; app_send_queue_bytes = 0 }

abbrev rising : List Sample
rising = sample 200 400000 ∷ sample 100 400000 ∷ sample 0 150000 ∷ []

rising-IsOpen : IsOpen rising
unfolding evaluate check_recovery new_tracker
rising-IsOpen = (λ e. ground arith, (λ e. ground arith, (λ e. ground arith, tt)))

resets : decision (sample 300 400000) rising ≡ reset_stream
unfolding evaluate check_recovery new_tracker
resets = refl

reset_justified_example : HardRun 3 (sample 300 400000 ∷ rising) ⊎ (max_video_queue_bytes < 0)
reset_justified_example = reset_justified (sample 300 400000) rising rising-IsOpen resets

begins : (Congestion.after (sample 0 150000 ∷ [])).congested ≡ true
unfolding evaluate check_recovery new_tracker
begins = refl

third_violation_resets_example : decision (sample 300 400000) rising ≡ reset_stream
third_violation_resets_example =
    third_violation_resets (sample 100 400000) (sample 200 400000) (sample 300 400000)
      (sample 0 150000 ∷ []) begins (omega arith) (omega arith) (omega arith) rising-IsOpen

abbrev calming : List Sample
calming = sample 100 50000 ∷ sample 0 150000 ∷ []

retries_back_off_example :
    (may_retry (episode ChannelSm.new []) 1800000 ≡ true)
    × ((may_retry (episode ChannelSm.new (1500000 ∷ 200000 ∷ [])) 1800000 ≡ true)
        ↔ (1500000 + backoff_us 1 ≤ 1800000))
retries_back_off_example =
    retries_back_off ChannelSm.new 1500000 1800000 (200000 ∷ []) (omega arith) (omega arith)

abbrev run : List Event
run = prologue ∷ generation ∷ encoder_config ∷ first_idr ∷ congests ∷ []

abbrev ended : VideoInstanceSm
ended = record { state = InstanceSm.congested; sent_generation = true; sent_encoder_config = true }

run-Accepts : Accepts InstanceSm.new run ended
unfolding InstanceSm.new InstanceSm.on_prologue_sent InstanceSm.on_generation_sent
    InstanceSm.on_encoder_config_sent InstanceSm.on_first_idr_sent InstanceSm.on_congested
run-Accepts = (refl, (refl, (refl, (refl, (refl, refl)))))

accepted_in_order_example : Follows set_up run
accepted_in_order_example = accepted_in_order run ended run-Accepts

-- A channel whose instance streams, and which has not reopened.
abbrev sending : VideoChannel
sending = record {
  channel_sm = record { state = live; retry_attempt = 0; next_retry_allowed_at_us = none };
  baseline = record { window_us = 10000000; samples = [] };
  congestion = record { congested = false; hard_violation_count = 0; below_soft_since_us = none };
  instance_sm = record { state = streaming; sent_generation = true; sent_encoder_config = true };
  generation = 0;
  last_reopen_us = none;
}

feedback_never_refused_example :
    (d : BackpressureDecision) × ((on_feedback sending 100 5000 0).1 ≡ ok d)
    × ((on_feedback sending 100 5000 0).0.instance_sm.state ≡ state_after d streaming)
    × IsInSync (on_feedback sending 100 5000 0).0
feedback_never_refused_example = feedback_never_refused sending 100 5000 0 refl (inl refl)

abbrev asked : KeyframeRequest
asked = record { reason = decode_error }

honored : (on_keyframe_request sending 100 asked).1 ≡ reopen
unfolding on_keyframe_request honor_request InstanceSm.on_client_requested_reset
honored = refl

requests_spaced_example :
    (last : ℕ) × (on_keyframe_request (on_keyframe_request sending 100 asked).0 900000 asked ≡ (
      (on_keyframe_request sending 100 asked).0,
      ignored (rate_limited (next_allowed_at_us last)),
    ))
requests_spaced_example =
    requests_spaced sending (on_keyframe_request sending 100 asked).0 100 900000 asked asked honored
      start (omega arith) (omega arith)

abbrev monitors : MonitorManager
monitors = record {
  channels =
      (1, sending)
      ∷ (
        2,
        record sending {
          channel_sm = record {
            state = paused;
            retry_attempt = 0;
            next_retry_allowed_at_us = none;
          };
        },
      )
      ∷ [];
  active_monitor_id = some 1;
}

abbrev breaker : ClientQueueCircuitBreaker
breaker = record { trip_threshold_us = 1000; rearm_threshold_us = 100; tripped = false }

trips : (observe breaker 2000).1 ≡ some asked
unfolding observe
trips = refl

trips_again : asks (observe breaker 2000).0 3000 (50 ∷ []) ≡ some asked
unfolding observe
trips_again = refl

one_request_an_episode_example : HasBelow 100 (50 ∷ []) × (1000 < 2000) × (1000 < 3000)
one_request_an_episode_example =
    one_request_an_episode breaker 2000 3000 (50 ∷ []) asked asked trips trips_again
