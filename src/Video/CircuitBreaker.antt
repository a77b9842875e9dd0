-- ===== src/Video/CircuitBreaker.antt =====
-- src/queue_circuit_breaker.rs: the client asks for a keyframe once when its queue is too old.
pub mod Episodes
use sardp.Base.{ℕ, ◌+◌, ◌*◌, ◌<◌, Bool, true, false, Option, none, some, ltb, if◌then◌else◌}
use sardp.Session.Messages.{KeyframeRequest, decode_error}
use sardp.Video.Backpressure.{
  max_video_queue_duration_delta_us, hard_threshold_consecutive_count,
  video_rate_reduce_threshold_delta_us,
}

abbrev transport_feedback_interval_us : ℕ
transport_feedback_interval_us = 100000

abbrev pub trip_threshold_us : ℕ
trip_threshold_us =
    max_video_queue_duration_delta_us * hard_threshold_consecutive_count
    + transport_feedback_interval_us

abbrev pub rearm_threshold_us : ℕ
rearm_threshold_us = video_rate_reduce_threshold_delta_us

pub record ClientQueueCircuitBreaker : Type 0 where
  pub trip_threshold_us : ℕ
  pub rearm_threshold_us : ℕ
  pub tripped : Bool

-- The assertion of the source: without it there is no breaker.
unfoldable with_thresholds : ℕ → ℕ → Option ClientQueueCircuitBreaker
with_thresholds trip rearm =
    if ltb rearm trip
    then some (record { trip_threshold_us = trip; rearm_threshold_us = rearm; tripped = false })
    else none

unfoldable pub observe :
    ClientQueueCircuitBreaker → ℕ → ClientQueueCircuitBreaker × Option KeyframeRequest
observe b oldest_queued_age_us =
    if b.tripped
    then (
      if ltb oldest_queued_age_us b.rearm_threshold_us then record b { tripped = false } else b,
      none,
    )
    else if ltb b.trip_threshold_us oldest_queued_age_us
    then (record b { tripped = true }, some (record { reason = decode_error }))
    else (b, none)
