-- ===== src/Input/Messages.antt =====
-- src/messages.rs and src/input_session.rs: what travels on the `input` stream. Coordinates are
-- `i32`, `dx` and `dy` are `i16`.
use sardp.Base.{ℕ, Bool, String}
use sardp.Base.Int.{ℤ}
use sardp.Session.Messages.{ImeModeChange}

pub record InputHeader : Type 0 where
  pub event_id : ℕ
  pub client_ts : ℕ

pub record KeyEvent : Type 0 where
  pub header : InputHeader
  pub down : Bool
  pub scancode : ℕ
  pub logical_key : ℕ
  pub modifiers : ℕ

pub record TextInput : Type 0 where
  pub header : InputHeader
  pub text : String

pub record ImeComposition : Type 0 where
  pub header : InputHeader
  pub text : String
  pub caret : ℕ

pub record MouseMove : Type 0 where
  pub header : InputHeader
  pub x : ℤ
  pub y : ℤ

pub record MouseButton : Type 0 where
  pub header : InputHeader
  pub button : ℕ
  pub down : Bool
  pub x : ℤ
  pub y : ℤ

pub record Wheel : Type 0 where
  pub header : InputHeader
  pub dx : ℤ
  pub dy : ℤ
  pub is_precise : Bool

pub data InputMessage : Type 0 where
  key : KeyEvent → InputMessage
  text : TextInput → InputMessage
  ime_composition : ImeComposition → InputMessage
  mouse_move : MouseMove → InputMessage
  mouse_button : MouseButton → InputMessage
  wheel : Wheel → InputMessage
  ime_mode_change : ImeModeChange → InputMessage
