-- ===== src/Input/ImeMode.antt =====
-- src/input_state.rs: the input method's mode, and the event from which a change counts.
pub mod Boundary
use sardp.Base.{ℕ, Option, none, some, Result, ok, err, ltb, if◌then◌else◌}
use sardp.Session.ReasonCode.{ReasonCode, protocol_unexpected_message}
use sardp.Session.Messages.{ImeMode, client_side, remote_side, ImeModeChange}

pub record ImeModeSm : Type 0 where
  pub current : ImeMode
  pub pending : Option (ImeMode × ℕ)

unfoldable pub new : ImeModeSm
new = record { current = client_side; pending = none }

unfoldable pub on_mode_change : ImeModeSm → ImeModeChange → ImeModeSm
on_mode_change s change = record s { pending = some (change.mode, change.effective_after_event_id) }

unfoldable pub mode_for : ImeModeSm → ℕ → ImeModeSm × ImeMode
mode_for s event_id = elim s.pending [
  | none ↦ (s, s.current)
  | some change ↦
      if ltb change.1 event_id
      then (record { current = change.0; pending = none }, change.0)
      else (s, s.current)
]

unfoldable pub check_text_allowed : ImeMode → Result ReasonCode (Unit {0})
check_text_allowed client_side = ok tt
check_text_allowed remote_side = err protocol_unexpected_message
