-- ===== src/Video/Backpressure.antt =====
-- src/backpressure.rs: the rolling minimum of the queue delay, and the decisions on a delay above
-- it. Times are the caller's.
pub mod Deque
pub mod Baseline
pub mod Congestion
use sardp.Base.{
  ℕ, ◌+◌, ◌-◌, ◌*◌, ◌%◌, ◌^◌, ◌≡◌, Bool, true, false, not, ◌&&◌, ◌||◌, Option, none, some, List, [],
  ◌∷◌, ◌++◌, ltb, leb, if◌then◌else◌,
}

abbrev video_queue_baseline_window_us : ℕ
video_queue_baseline_window_us = 10000000

abbrev pub video_rate_reduce_threshold_delta_us : ℕ
video_rate_reduce_threshold_delta_us = 100000

abbrev pub max_video_queue_duration_delta_us : ℕ
max_video_queue_duration_delta_us = 300000

abbrev pub congested_to_streaming_hysteresis_us : ℕ
congested_to_streaming_hysteresis_us = 500000

abbrev pub max_video_queue_bytes : ℕ
max_video_queue_bytes = 4 * 1024 * 1024

abbrev pub hard_threshold_consecutive_count : ℕ
hard_threshold_consecutive_count = 3

-- `samples` from front to back: the time of a sample and its value.
pub record BaselineTracker : Type 0 where
  pub window_us : ℕ
  pub samples : List (ℕ × ℕ)

unfoldable pub new : ℕ → BaselineTracker
new window_us = record { window_us = window_us; samples = [] }

abbrev pub with_default_window : BaselineTracker
unfolding new
with_default_window = new video_queue_baseline_window_us

-- The loop that takes values from the back as long as they are `value_us` or more.
unfoldable pub pop_back_while : ℕ → List (ℕ × ℕ) → List (ℕ × ℕ)
pop_back_while value_us [] = []
pop_back_while value_us ((ts, v) ∷ samples) =
    let rest = pop_back_while value_us samples in
    elim rest [ [] ↦ if leb value_us v then [] else (ts, v) ∷ [] | x ∷ xs ↦ (ts, v) ∷ x ∷ xs ]

-- The loop that takes expired samples from the front.
unfoldable pub pop_front_while : ℕ → List (ℕ × ℕ) → List (ℕ × ℕ)
pop_front_while cutoff [] = []
pop_front_while cutoff ((ts, v) ∷ samples) =
    if ltb ts cutoff then pop_front_while cutoff samples else (ts, v) ∷ samples

unfoldable pub evict_expired : BaselineTracker → ℕ → BaselineTracker
evict_expired t now_us = record t { samples = pop_front_while (now_us - t.window_us) t.samples }

-- `record` is a keyword of this language.
unfoldable pub record_sample : BaselineTracker → ℕ → ℕ → BaselineTracker
record_sample t now_us value_us =
    evict_expired
      (record t { samples = pop_back_while value_us t.samples ++ (now_us, value_us) ∷ [] }) now_us

unfoldable pub baseline_us : BaselineTracker → Option ℕ
baseline_us t = elim t.samples [ [] ↦ none | x ∷ xs ↦ some x.1 ]

pub data BackpressureDecision : Type 0 where
  continue enter_congested exit_congested reset_stream : BackpressureDecision

pub record CongestionTracker : Type 0 where
  pub congested : Bool
  pub hard_violation_count : ℕ
  pub below_soft_since_us : Option ℕ

unfoldable pub new_tracker : CongestionTracker
new_tracker = record { congested = false; hard_violation_count = 0; below_soft_since_us = none }

-- The hysteresis at the end of `evaluate`.
unfoldable pub check_recovery : CongestionTracker → ℕ → ℕ → CongestionTracker × BackpressureDecision
check_recovery c now_us delta_us =
    if ltb delta_us video_rate_reduce_threshold_delta_us
    then elim c.below_soft_since_us [
      | none ↦ (record c { below_soft_since_us = some now_us }, continue)
      | some since ↦
          if leb congested_to_streaming_hysteresis_us (now_us - since)
          then (record c { congested = false; below_soft_since_us = none }, exit_congested)
          else (c, continue)
    ]
    else (record c { below_soft_since_us = none }, continue)

-- `hard_violation_count` is a `u32`.
abbrev count_violation : CongestionTracker → ℕ → CongestionTracker
count_violation c delta_us = record c {
  hard_violation_count =
      if ltb max_video_queue_duration_delta_us delta_us
      then (c.hard_violation_count + 1) % 2 ^ 32
      else 0;
}

unfoldable pub evaluate : CongestionTracker → ℕ → ℕ → ℕ → CongestionTracker × BackpressureDecision
unfolding check_recovery
evaluate c now_us delta_us app_send_queue_bytes =
    if c.congested
    then (let counted = count_violation c delta_us in
        if leb hard_threshold_consecutive_count counted.hard_violation_count
          || ltb max_video_queue_bytes app_send_queue_bytes
        then (counted, reset_stream)
        else check_recovery counted now_us delta_us)
    else if ltb video_rate_reduce_threshold_delta_us delta_us
    then (
      record { congested = true; hard_violation_count = 0; below_soft_since_us = none },
      enter_congested,
    )
    else (c, continue)
