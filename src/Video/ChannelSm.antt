-- ===== src/Video/ChannelSm.antt =====
-- src/channel_sm.rs: the state machine of a channel, and the backoff between its retries.
pub mod Backoff
use sardp.Base.{
  ℕ, ◌+◌, ◌%◌, ◌^◌, Bool, true, Option, none, some, List, [], ◌∷◌, get_or, leb, if◌then◌else◌,
}

abbrev pub recovery_backoff_sequence_us : List ℕ
recovery_backoff_sequence_us = 1000000 ∷ 2000000 ∷ 4000000 ∷ 8000000 ∷ 16000000 ∷ 30000000 ∷ []

abbrev pub recovery_backoff_plateau_us : ℕ
recovery_backoff_plateau_us = 30000000

pub data ChannelState : Type 0 where
  initializing live recovering paused : ChannelState

pub record ChannelSm : Type 0 where
  pub state : ChannelState
  pub retry_attempt : ℕ
  pub next_retry_allowed_at_us : Option ℕ

unfoldable pub new : ChannelSm
new = record { state = initializing; retry_attempt = 0; next_retry_allowed_at_us = none }

unfoldable pub on_instance_streaming : ChannelSm → ChannelSm
on_instance_streaming s = record {
  state = live;
  retry_attempt = 0;
  next_retry_allowed_at_us = none;
}

unfoldable pub on_reset : ChannelSm → ChannelSm
on_reset s = record s { state = recovering }

-- The time is a `u64` and the count a `u32`.
unfoldable pub on_retry_timeout : ChannelSm → ℕ → ChannelSm
on_retry_timeout s now_us =
    let delay_us =
      get_or recovery_backoff_sequence_us s.retry_attempt recovery_backoff_plateau_us in
    record s {
      next_retry_allowed_at_us = some ((now_us + delay_us) % 2 ^ 64);
      retry_attempt = (s.retry_attempt + 1) % 2 ^ 32;
    }

unfoldable pub may_retry : ChannelSm → ℕ → Bool
may_retry s now_us = elim s.next_retry_allowed_at_us [ none ↦ true | some t ↦ leb t now_us ]

unfoldable pub deactivate : ChannelSm → ChannelSm
deactivate s = elim s.state [ live ↦ record s { state = paused } | _ ↦ s ]

unfoldable pub activate : ChannelSm → ChannelSm
activate s = elim s.state [ paused ↦ record s { state = live } | _ ↦ s ]
