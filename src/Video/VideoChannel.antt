-- ===== src/Video/VideoChannel.antt =====
-- src/video_channel.rs: one channel on the server, over all its instances.
pub mod Sync
pub mod Reopen
use sardp.Base.{
  ℕ, ◌+◌, ◌-◌, ◌%◌, ◌^◌, min, Bool, Option, none, some, Result, ok, err, Outcome, ◌then_try◌, ltb,
  if◌then◌else◌,
}
use sardp.Session.Messages.{KeyframeRequest}
use sardp.Video.Backpressure
use sardp.Video.Backpressure.{
  BaselineTracker, CongestionTracker, BackpressureDecision, continue, enter_congested,
  exit_congested, reset_stream, with_default_window, new_tracker, record_sample, baseline_us,
  evaluate,
}
use sardp.Video.ChannelSm
use sardp.Video.ChannelSm.{ChannelSm}
use sardp.Video.InstanceSm
use sardp.Video.InstanceSm.{VideoInstanceSm, ProtocolViolation}
use sardp.Video.CircuitBreaker.{trip_threshold_us}

abbrev pub keyframe_request_min_interval_us : ℕ
keyframe_request_min_interval_us = trip_threshold_us

pub data KeyframeRequestIgnored : Type 0 where
  rate_limited : ℕ → KeyframeRequestIgnored
  not_streaming : KeyframeRequestIgnored

pub data KeyframeRequestDecision : Type 0 where
  reopen : KeyframeRequestDecision
  ignored : KeyframeRequestIgnored → KeyframeRequestDecision

pub record VideoChannel : Type 0 where
  pub channel_sm : ChannelSm
  pub baseline : BaselineTracker
  pub congestion : CongestionTracker
  pub instance_sm : VideoInstanceSm
  pub generation : ℕ
  pub last_reopen_us : Option ℕ

unfoldable pub new : ℕ → VideoChannel
new generation = record {
  channel_sm = ChannelSm.new;
  baseline = with_default_window;
  congestion = new_tracker;
  instance_sm = InstanceSm.new;
  generation = generation;
  last_reopen_us = none;
}

unfoldable pub deactivate : VideoChannel → VideoChannel
deactivate v = record v { channel_sm = ChannelSm.deactivate v.channel_sm }

unfoldable pub activate : VideoChannel → VideoChannel
activate v = record v { channel_sm = ChannelSm.activate v.channel_sm }

unfoldable pub mark_instance_streaming : VideoChannel → Outcome ProtocolViolation VideoChannel
mark_instance_streaming v =
    let (instance_sm, result) =
      InstanceSm.on_prologue_sent v.instance_sm
      then_try InstanceSm.on_generation_sent
      then_try InstanceSm.on_encoder_config_sent
      then_try InstanceSm.on_first_idr_sent in
    elim result [
      | err e ↦ (record v { instance_sm = instance_sm }, err e)
      | ok u ↦ (
        record v {
          instance_sm = instance_sm;
          channel_sm = ChannelSm.on_instance_streaming v.channel_sm;
        },
        ok tt,
      )
    ]

-- `method()?` on the instance.
abbrev try_instance :
    VideoChannel
    → Outcome ProtocolViolation VideoInstanceSm
    → Outcome ProtocolViolation VideoChannel
try_instance v (instance_sm, result) = (record v { instance_sm = instance_sm }, result)

-- The `match` on the decision.
unfoldable pub follow_decision :
    BackpressureDecision → ℕ → VideoChannel → Outcome ProtocolViolation VideoChannel
follow_decision continue now_us v = (v, ok tt)
follow_decision enter_congested now_us v = try_instance v (InstanceSm.on_congested v.instance_sm)
follow_decision exit_congested now_us v = try_instance v (InstanceSm.on_recovered v.instance_sm)
follow_decision reset_stream now_us v =
    try_instance v (InstanceSm.on_reset v.instance_sm) then_try λ v'. (
      record v' { channel_sm = ChannelSm.on_reset v'.channel_sm; last_reopen_us = some now_us },
      ok tt,
    )

-- `client_queue_delay_us.saturating_sub(baseline)`, after the sample was recorded.
unfoldable pub queue_delta : BaselineTracker → ℕ → ℕ
queue_delta baseline client_queue_delay_us = elim (baseline_us baseline) [
  | none ↦ client_queue_delay_us - client_queue_delay_us
  | some b ↦ client_queue_delay_us - b
]

unfoldable pub on_feedback :
    VideoChannel → ℕ → ℕ → ℕ → VideoChannel × Result ProtocolViolation BackpressureDecision
on_feedback v now_us client_queue_delay_us app_send_queue_bytes =
    let baseline = record_sample v.baseline now_us client_queue_delay_us in
    let delta = queue_delta baseline client_queue_delay_us in
    let (congestion, decision) = evaluate v.congestion now_us delta app_send_queue_bytes in
    let (v', result) =
      follow_decision decision now_us (record v { baseline = baseline; congestion = congestion }) in
    elim result [ ok u ↦ (v', ok decision) | err e ↦ (v', err e) ]

-- After the rate limit.
unfoldable pub honor_request : VideoChannel → ℕ → VideoChannel × KeyframeRequestDecision
honor_request v now_us =
    let (instance_sm, result) = InstanceSm.on_client_requested_reset v.instance_sm in
    elim result [
      | err e ↦ (record v { instance_sm = instance_sm }, ignored not_streaming)
      | ok u ↦ (
        record v {
          instance_sm = instance_sm;
          channel_sm = ChannelSm.on_reset v.channel_sm;
          last_reopen_us = some now_us;
        },
        reopen,
      )
    ]

-- `saturating_add` on a `u64`.
abbrev pub next_allowed_at_us : ℕ → ℕ
next_allowed_at_us last = min (last + keyframe_request_min_interval_us) (2 ^ 64 - 1)

unfoldable pub on_keyframe_request :
    VideoChannel → ℕ → KeyframeRequest → VideoChannel × KeyframeRequestDecision
unfolding honor_request
on_keyframe_request v now_us request = elim v.last_reopen_us [
  | none ↦ honor_request v now_us
  | some last ↦
      if ltb now_us (next_allowed_at_us last)
      then (v, ignored (rate_limited (next_allowed_at_us last)))
      else honor_request v now_us
]

unfoldable pub prepare_reopen : VideoChannel → VideoChannel × ℕ
prepare_reopen v =
    let generation = (v.generation + 1) % 2 ^ 64 in
    (
      record v { generation = generation; congestion = new_tracker; instance_sm = InstanceSm.new },
      generation,
    )
