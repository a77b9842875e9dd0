-- ===== src/Server/Injection/Gate.antt =====
-- What a message may do to the server's desktop.
use sardp.Base.{
  ℕ, ◌≡◌, ◌≢◌, ◌↔◌, ◌⊎◌, refl, ap, ◌∙◌, inl, inr, Bool, true, false, List, [], ◌∷◌, ◌++◌, err, none,
  arith, All, bit_and, bit_or, Bool-cases,
}
use sardp.Session.ReasonCode.{protocol_unexpected_message}
use sardp.Session.Messages.{client_side, remote_side}
use sardp.Permission.PermissionSm.{PermissionSm, is_granted}
use sardp.Permission.PermissionSet.{input_keyboard, input_mouse}
use sardp.Input.ImeMode.{mode_for, check_text_allowed}
use sardp.Input.Keys.{should_inject_key, is_character_key, ctrl, alt, meta}
use sardp.Input.Messages.{
  KeyEvent, TextInput, ImeComposition, InputMessage, key, text, ime_composition, mouse_move,
  mouse_button, wheel, ime_mode_change,
}
use sardp.Server.Injection.{
  SinkEvent, key_event, text_event, move_event, button_event, wheel_event, InputInjection, emit,
  not_granted, handle, handle_key, handle_text, handle_composition, handle_move, handle_button,
  handle_wheel,
}

-- The permission that an event at the sink stands under.
abbrev bit_of : SinkEvent → ℕ
bit_of (key_event k down) = input_keyboard
bit_of (text_event t) = input_keyboard
bit_of (move_event x y) = input_mouse
bit_of (button_event b down) = input_mouse
bit_of (wheel_event dx dy) = input_mouse

-- The sink got further events, each one of them granted.
abbrev pub IsGrantedSince : PermissionSm → InputInjection → InputInjection → Type 0
IsGrantedSince sm s s' =
    (news : List SinkEvent) × (s'.sink ≡ news ++ s.sink)
    × All (λ e. is_granted sm (bit_of e) ≡ true) news

handle_key-IsGranted :
    (s : InputInjection) (k : KeyEvent) (sm : PermissionSm) (keyboard : Bool)
    → is_granted sm input_keyboard ≡ keyboard
    → IsGrantedSince sm s (handle_key s k keyboard).0
unfolding handle_key emit not_granted
handle_key-IsGranted s k sm false h = ([], refl, tt)
handle_key-IsGranted s k sm true h =
    elim (Bool-cases
      (should_inject_key (mode_for s.ime k.header.event_id).1 k.scancode k.modifiers)) [
        | inl e ↦ rw e (key_event k.scancode k.down ∷ [], refl, (h, tt))
        | inr e ↦ rw e ([], refl, tt)
      ]

handle_text-sink :
    (s : InputInjection) (t : TextInput) (keyboard : Bool)
    → let s' = (handle_text s t keyboard).0 in
      (s'.sink ≡ s.sink) ⊎ ((s'.sink ≡ text_event t.text ∷ s.sink) × (keyboard ≡ true))
unfolding handle_text emit not_granted check_text_allowed
handle_text-sink s t keyboard = ground arith

handle_composition-sink :
    (s : InputInjection) (c : ImeComposition) (keyboard : Bool)
    → (handle_composition s c keyboard).0.sink ≡ s.sink
unfolding handle_composition not_granted check_text_allowed
handle_composition-sink s c keyboard = ground arith

-- Whatever the message: what it adds at the sink is covered by a permission that is granted.
pub only_granted :
    (s : InputInjection) (m : InputMessage) (sm : PermissionSm)
    → IsGrantedSince sm s (handle s m sm).0
unfolding handle handle_move handle_button handle_wheel emit not_granted
only_granted s (key k) sm = handle_key-IsGranted s k sm (is_granted sm input_keyboard) refl
only_granted s (text t) sm = elim (handle_text-sink s t (is_granted sm input_keyboard)) [
  | inl e ↦ ([], e, tt)
  | inr (e, granted) ↦ (text_event t.text ∷ [], e, (granted, tt))
]
only_granted s (ime_composition c) sm =
    ([], handle_composition-sink s c (is_granted sm input_keyboard), tt)
only_granted s (mouse_move m) sm = elim (Bool-cases (is_granted sm input_mouse)) [
  | inl e ↦ rw e (move_event m.x m.y ∷ [], refl, (e, tt))
  | inr e ↦ rw e ([], refl, tt)
]
only_granted s (mouse_button b) sm = elim (Bool-cases (is_granted sm input_mouse)) [
  | inl e ↦ rw e (button_event b.button b.down ∷ move_event b.x b.y ∷ [], refl, (e, (e, tt)))
  | inr e ↦ rw e ([], refl, tt)
]
only_granted s (wheel w) sm = elim (Bool-cases (is_granted sm input_mouse)) [
  | inl e ↦ rw e (wheel_event w.dx w.dy ∷ [], refl, (e, tt))
  | inr e ↦ rw e ([], refl, tt)
]
only_granted s (ime_mode_change c) sm = ([], refl, tt)

-- The messages that are forbidden: text, or a composition, of an event in the remote mode.
abbrev IsForbidden : InputInjection → InputMessage → Type 0
IsForbidden s (text t) = (mode_for s.ime t.header.event_id).1 ≡ remote_side
IsForbidden s (ime_composition c) = (mode_for s.ime c.header.event_id).1 ≡ remote_side
IsForbidden s _ = ⊥

-- Handling fails exactly on the forbidden messages, with PROTOCOL.1 and with nothing injected,
-- whatever is granted.
handle_fails_iff :
    (s : InputInjection) (m : InputMessage) (sm : PermissionSm)
    → (((handle s m sm).1 ≡ err protocol_unexpected_message) ↔ IsForbidden s m)
      × (IsForbidden s m → (handle s m sm).0.sink ≡ s.sink)
unfolding handle handle_key handle_text handle_composition handle_move handle_button handle_wheel
    emit not_granted check_text_allowed
handle_fails_iff s (key k) sm = ground arith
handle_fails_iff s (text t) sm = ground arith
handle_fails_iff s (ime_composition c) sm = ground arith
handle_fails_iff s (mouse_move m) sm = ground arith
handle_fails_iff s (mouse_button b) sm = ground arith
handle_fails_iff s (wheel w) sm = ground arith
handle_fails_iff s (ime_mode_change c) sm = ground arith

handle_key-injects :
    (s : InputInjection) (k : KeyEvent)
    → s.ime.current ≡ client_side
    → s.ime.pending ≡ none
    → bit_and k.modifiers (bit_or (bit_or ctrl alt) meta) ≢ 0
    → let s' = (handle_key s k true).0 in
      (s'.sink ≡ key_event k.scancode k.down ∷ s.sink)
      × ((s'.ime.current ≡ s.ime.current) × (s'.ime.pending ≡ s.ime.pending))
unfolding handle_key emit mode_for should_inject_key
handle_key-injects s k mode still with = ground arith

handle_key-skips :
    (s : InputInjection) (k : KeyEvent)
    → s.ime.current ≡ client_side
    → s.ime.pending ≡ none
    → is_character_key k.scancode ≡ true
    → bit_and k.modifiers (bit_or (bit_or ctrl alt) meta) ≡ 0
    → (handle_key s k true).0.sink ≡ s.sink
unfolding handle_key emit mode_for should_inject_key
handle_key-skips s k mode still c without = ground arith

-- A shortcut that is let go modifier first: on the client's side of the input method, a character
-- key is injected when it goes down under a modifier, and its release, by then without one, is
-- skipped: at the sink it stays down.
pub shortcut_left_down :
    (s : InputInjection) (down up : KeyEvent) (sm : PermissionSm)
    → s.ime.current ≡ client_side
    → s.ime.pending ≡ none
    → is_granted sm input_keyboard ≡ true
    → down.down ≡ true
    → is_character_key down.scancode ≡ true
    → up.scancode ≡ down.scancode
    → bit_and down.modifiers (bit_or (bit_or ctrl alt) meta) ≢ 0
    → bit_and up.modifiers (bit_or (bit_or ctrl alt) meta) ≡ 0
    → let pressed = (handle s (key down) sm).0 in
      (pressed.sink ≡ key_event down.scancode true ∷ s.sink)
      × ((handle pressed (key up) sm).0.sink ≡ pressed.sink)
unfolding handle
shortcut_left_down s down up sm mode still granted d c same with without =
    let step = handle_key-injects s down mode still with in
    let skip =
      handle_key-skips (handle_key s down true).0 up (step.1.0 ∙ mode) (step.1.1 ∙ still)
        (ap is_character_key same ∙ c) without in
    rw granted (step.0 ∙ ap (λ d. key_event down.scancode d ∷ s.sink) d, skip)
