-- ===== src/Input.antt =====
-- src/input_state.rs: the input method's mode, what is pressed, and which keys are injected.
pub mod ImeMode
pub mod Messages
pub mod Pressed
pub mod Keys
pub mod Session
