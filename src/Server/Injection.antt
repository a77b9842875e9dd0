-- ===== src/Server/Injection.antt =====
-- sardp-cli/src/bin/sardp-server.rs: `InputInjection`. The sink is the list of the events that it
-- was handed, the newest first; the counters are `u64`.
pub mod Balanced
pub mod Gate
use sardp.Base.{
  ℕ, ◌+◌, ◌%◌, ◌^◌, Bool, true, false, not, List, [], ◌∷◌, ◌++◌, reverse, String, Result, ok, err,
  if◌then◌else◌,
}
use sardp.Base.Int.{ℤ}
use sardp.Session.ReasonCode.{ReasonCode}
use sardp.Session.Messages.{ImeModeChange, ImeMode}
use sardp.Permission.PermissionSet.{input_keyboard, input_mouse}
use sardp.Permission.PermissionSm.{PermissionSm, is_granted}
use sardp.Input.ImeMode
use sardp.Input.ImeMode.{ImeModeSm, on_mode_change, mode_for, check_text_allowed}
use sardp.Input.Keys.{should_inject_key}
use sardp.Input.Pressed
use sardp.Input.Pressed.{Release, PressedInputs, on_key, on_button, take_releases}
use sardp.Input.Messages.{
  KeyEvent, TextInput, ImeComposition, MouseMove, MouseButton, Wheel, InputMessage, key, text,
  ime_composition, mouse_move, mouse_button, wheel, ime_mode_change,
}

pub data SinkEvent : Type 0 where
  key_event : ℕ → Bool → SinkEvent
  text_event : String → SinkEvent
  move_event : ℤ → ℤ → SinkEvent
  button_event : ℕ → Bool → SinkEvent
  wheel_event : ℤ → ℤ → SinkEvent

pub record InputInjection : Type 0 where
  pub sink : List SinkEvent
  pub ime : ImeModeSm
  pub pressed : PressedInputs
  pub injected : ℕ
  pub dropped_not_granted : ℕ
  pub skipped_character_keys : ℕ
  pub mouse_moves : ℕ

unfoldable pub new : InputInjection
new = record {
  sink = [];
  ime = ImeMode.new;
  pressed = Pressed.new;
  injected = 0;
  dropped_not_granted = 0;
  skipped_character_keys = 0;
  mouse_moves = 0;
}

abbrev next_u64 : ℕ → ℕ
next_u64 n = (n + 1) % 2 ^ 64

unfoldable pub emit : InputInjection → SinkEvent → InputInjection
emit s event = record s { sink = event ∷ s.sink; injected = next_u64 s.injected }

unfoldable pub not_granted : InputInjection → InputInjection
not_granted s = record s { dropped_not_granted = next_u64 s.dropped_not_granted }

abbrev Handled : Type 0
Handled = InputInjection × Result ReasonCode (Unit {0})

-- `mode_for` changes the mode that it answers by.
abbrev with_mode : InputInjection → ℕ → InputInjection × ImeMode
with_mode s event_id = let (ime, mode) = mode_for s.ime event_id in (record s { ime = ime }, mode)

unfoldable pub handle_key : InputInjection → KeyEvent → Bool → Handled
handle_key s k keyboard =
    let (s', mode) = with_mode s k.header.event_id in
    if not keyboard
    then (not_granted s', ok tt)
    else if not (should_inject_key mode k.scancode k.modifiers)
    then (record s' { skipped_character_keys = next_u64 s'.skipped_character_keys }, ok tt)
    else (
      emit (record s' { pressed = on_key s'.pressed k.scancode k.down })
          (key_event k.scancode k.down),
      ok tt,
    )

unfoldable pub handle_text : InputInjection → TextInput → Bool → Handled
handle_text s t keyboard =
    let (s', mode) = with_mode s t.header.event_id in
    elim (check_text_allowed mode) [
      | err reason ↦ (s', err reason)
      | ok u ↦
          if not keyboard then (not_granted s', ok tt) else (emit s' (text_event t.text), ok tt)
    ]

-- Nothing is injected: the committed text follows.
unfoldable pub handle_composition : InputInjection → ImeComposition → Bool → Handled
handle_composition s c keyboard =
    let (s', mode) = with_mode s c.header.event_id in
    elim (check_text_allowed mode) [
      | err reason ↦ (s', err reason)
      | ok u ↦ if not keyboard then (not_granted s', ok tt) else (s', ok tt)
    ]

unfoldable pub handle_move : InputInjection → MouseMove → Bool → Handled
handle_move s m mouse =
    if not mouse
    then (not_granted s, ok tt)
    else (emit (record s { mouse_moves = next_u64 s.mouse_moves }) (move_event m.x m.y), ok tt)

-- The position first, so that the click lands there.
unfoldable pub handle_button : InputInjection → MouseButton → Bool → Handled
handle_button s b mouse = if not mouse then (not_granted s, ok tt) else (
  emit (emit (record s { pressed = on_button s.pressed b.button b.down }) (move_event b.x b.y))
      (button_event b.button b.down),
  ok tt,
)

unfoldable pub handle_wheel : InputInjection → Wheel → Bool → Handled
handle_wheel s w mouse =
    if not mouse then (not_granted s, ok tt) else (emit s (wheel_event w.dx w.dy), ok tt)

unfoldable pub handle : InputInjection → InputMessage → PermissionSm → Handled
handle s (key k) sm = handle_key s k (is_granted sm input_keyboard)
handle s (text t) sm = handle_text s t (is_granted sm input_keyboard)
handle s (ime_composition c) sm = handle_composition s c (is_granted sm input_keyboard)
handle s (mouse_move m) sm = handle_move s m (is_granted sm input_mouse)
handle s (mouse_button b) sm = handle_button s b (is_granted sm input_mouse)
handle s (wheel w) sm = handle_wheel s w (is_granted sm input_mouse)
handle s (ime_mode_change c) sm = (record s { ime = on_mode_change s.ime c }, ok tt)

unfoldable pub emit_release : InputInjection → Release → InputInjection
emit_release s (Release.key k) = emit s (key_event k false)
emit_release s (Release.button b) = emit s (button_event b false)

-- The loop over the releases.
unfoldable pub emit_releases : InputInjection → List Release → InputInjection
emit_releases s [] = s
emit_releases s (r ∷ releases) = emit_releases (emit_release s r) releases

unfoldable pub release_all : InputInjection → InputInjection
release_all s =
    let (pressed, releases) = take_releases s.pressed in
    emit_releases (record s { pressed = pressed }) releases
