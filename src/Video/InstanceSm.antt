-- ===== src/Video/InstanceSm.antt =====
-- src/video_sm.rs: the state machine of one instance, that is one stream of one generation.
pub mod Setup
use sardp.Base.{Bool, true, false, not, ◌&&◌, List, Result, ok, err, Outcome, if◌then◌else◌}
use sardp.Session.ReasonCode.{ReasonCode, protocol_unexpected_message}

pub data CloseReason : Type 0 where
  reset failed normal : CloseReason

pub data InstanceState : Type 0 where
  created configuring streaming congested : InstanceState
  closed : CloseReason → InstanceState

pub record ProtocolViolation : Type 0 where
  pub reason : ReasonCode

abbrev unexpected : ProtocolViolation
unexpected = record { reason = protocol_unexpected_message }

pub record VideoInstanceSm : Type 0 where
  pub state : InstanceState
  pub sent_generation : Bool
  pub sent_encoder_config : Bool

unfoldable pub new : VideoInstanceSm
new = record { state = created; sent_generation = false; sent_encoder_config = false }

unfoldable pub on_prologue_sent : VideoInstanceSm → Outcome ProtocolViolation VideoInstanceSm
on_prologue_sent s = elim s.state [
  | created ↦ (record s { state = configuring }, ok tt)
  | _ ↦ (s, err unexpected)
]

unfoldable pub on_generation_sent : VideoInstanceSm → Outcome ProtocolViolation VideoInstanceSm
on_generation_sent s = elim s.state [
  | configuring ↦
      if not s.sent_generation
      then (record s { sent_generation = true }, ok tt)
      else (s, err unexpected)
  | _ ↦ (s, err unexpected)
]

unfoldable pub on_encoder_config_sent : VideoInstanceSm → Outcome ProtocolViolation VideoInstanceSm
on_encoder_config_sent s = elim s.state [
  | configuring ↦
      if s.sent_generation && not s.sent_encoder_config
      then (record s { sent_encoder_config = true }, ok tt)
      else (s, err unexpected)
  | _ ↦ (s, err unexpected)
]

unfoldable pub on_first_idr_sent : VideoInstanceSm → Outcome ProtocolViolation VideoInstanceSm
on_first_idr_sent s = elim s.state [
  | configuring ↦
      if s.sent_generation && s.sent_encoder_config
      then (record s { state = streaming }, ok tt)
      else (s, err unexpected)
  | _ ↦ (s, err unexpected)
]

unfoldable pub on_congested : VideoInstanceSm → Outcome ProtocolViolation VideoInstanceSm
on_congested s = elim s.state [
  | streaming ↦ (record s { state = congested }, ok tt)
  | _ ↦ (s, err unexpected)
]

unfoldable pub on_recovered : VideoInstanceSm → Outcome ProtocolViolation VideoInstanceSm
on_recovered s = elim s.state [
  | congested ↦ (record s { state = streaming }, ok tt)
  | _ ↦ (s, err unexpected)
]

unfoldable pub on_reset : VideoInstanceSm → Outcome ProtocolViolation VideoInstanceSm
on_reset s = elim s.state [
  | congested ↦ (record s { state = closed reset }, ok tt)
  | _ ↦ (s, err unexpected)
]

unfoldable pub on_client_requested_reset :
    VideoInstanceSm → Outcome ProtocolViolation VideoInstanceSm
on_client_requested_reset s = elim s.state [
  | streaming ↦ (record s { state = closed reset }, ok tt)
  | congested ↦ (record s { state = closed reset }, ok tt)
  | _ ↦ (s, err unexpected)
]
