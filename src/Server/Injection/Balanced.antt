-- ===== src/Server/Injection/Balanced.antt =====
-- What the sink is left with: the keys and buttons that were pressed and not released.
use sardp.Base.{
  ℕ, ◌≡◌, refl, sym, ap, ◌∙◌, subst, Bool, true, false, List, [], ◌∷◌, ◌++◌, map, arith, Bool-cases,
  inl, inr,
}
use sardp.Permission.PermissionSm.{PermissionSm, is_granted}
use sardp.Permission.PermissionSet.{input_keyboard}
use sardp.Input.ImeMode.{mode_for}
use sardp.Input.Keys.{should_inject_key}
use sardp.Input.Pressed
use sardp.Input.Pressed.{Release, PressedInputs, on_key, on_button, take_releases, remove}
use sardp.Input.Pressed.Ordered.{IsIn}
use sardp.Input.Pressed.Releases
use sardp.Input.Pressed.Releases.{Event, after, IsKeyDown, IsButtonDown, keys_iff, buttons_iff}
use sardp.Input.Messages.{
  KeyEvent, InputMessage, key, text, ime_composition, mouse_move, mouse_button, wheel,
  ime_mode_change,
}
use sardp.Server.Injection.{
  SinkEvent, key_event, text_event, move_event, button_event, wheel_event, InputInjection, new,
  emit, not_granted, handle, handle_key, handle_text, handle_composition, handle_move,
  handle_button, handle_wheel, emit_release, emit_releases, release_all,
}

-- The presses and releases among the events.
abbrev pub presses : List SinkEvent → List Event
presses [] = []
presses (key_event k down ∷ older) = Releases.key_event k down ∷ presses older
presses (button_event b down ∷ older) = Releases.button_event b down ∷ presses older
presses (text_event t ∷ older) = presses older
presses (move_event x y ∷ older) = presses older
presses (wheel_event dx dy ∷ older) = presses older

-- The set of what is pressed is what the sink was told.
abbrev IsTracked : InputInjection → Type 0
IsTracked s = s.pressed ≡ after (presses s.sink)

handle_key-IsTracked :
    (s : InputInjection) (k : KeyEvent) (keyboard : Bool)
    → IsTracked s
    → IsTracked (handle_key s k keyboard).0
unfolding handle_key emit not_granted
handle_key-IsTracked s k false h = h
handle_key-IsTracked s k true h =
    let inject = should_inject_key (mode_for s.ime k.header.event_id).1 k.scancode k.modifiers in
    elim (Bool-cases inject) [
      | inl e ↦ rw e (ap (λ p. on_key p k.scancode k.down) h)
      | inr e ↦ rw e h
    ]

handle-IsTracked :
    (s : InputInjection) (m : InputMessage) (sm : PermissionSm)
    → IsTracked s
    → IsTracked (handle s m sm).0
unfolding handle handle_text handle_composition handle_move handle_button handle_wheel emit
    not_granted
handle-IsTracked s (key k) sm h = handle_key-IsTracked s k (is_granted sm input_keyboard) h
handle-IsTracked s (text t) sm h = ground arith
handle-IsTracked s (ime_composition c) sm h = ground arith
handle-IsTracked s (mouse_move m) sm h = ground arith
handle-IsTracked s (mouse_button b) sm h = ground arith
handle-IsTracked s (wheel w) sm h = ground arith
handle-IsTracked s (ime_mode_change c) sm h = h

-- The releases of exactly what is down leave nothing down.
emit_releases-after :
    (s : InputInjection) (bs ks : List ℕ)
    → after (presses s.sink) ≡ record { keys = ks; buttons = bs }
    → let ended = emit_releases s (map (λ b. Release.button b) bs ++ map (λ k. Release.key k) ks) in
      (ended.pressed ≡ s.pressed)
      × (after (presses ended.sink) ≡ record { keys = []; buttons = [] })
unfolding emit_releases emit_release emit on_key on_button remove
emit_releases-after s [] [] h = (refl, h)
emit_releases-after s [] (k ∷ ks) h =
    emit_releases-after (emit_release s (Release.key k)) [] ks (rw h (ground arith))
emit_releases-after s (b ∷ bs) ks h =
    emit_releases-after (emit_release s (Release.button b)) bs ks (rw h (ground arith))

-- What `release_all` leaves: nothing is pressed, and the sink was told so.
release_all-empty :
    (s : InputInjection)
    → IsTracked s
    → ((release_all s).pressed ≡ record { keys = []; buttons = [] })
      × (after (presses (release_all s).sink) ≡ record { keys = []; buttons = [] })
unfolding release_all take_releases
release_all-empty s h =
    emit_releases-after (record s { pressed = record { keys = []; buttons = [] } })
      s.pressed.buttons s.pressed.keys (sym h)

-- The states of a session: messages are handled, under whatever permissions are in force then, and
-- an input stream ends.
pub data Reach : InputInjection → Type 0 where
  start : Reach new
  then_handle :
      (s : InputInjection) (m : InputMessage) (sm : PermissionSm)
      → Reach s
      → Reach (handle s m sm).0
  then_end : (s : InputInjection) → Reach s → Reach (release_all s)

reach-IsTracked : (s : InputInjection) → Reach s → IsTracked s
unfolding new Pressed.new
reach-IsTracked s start = refl
reach-IsTracked s' (then_handle s m sm r) = handle-IsTracked s m sm (reach-IsTracked s r)
reach-IsTracked s' (then_end s r) =
    let (pressed, told) = release_all-empty s (reach-IsTracked s r) in pressed ∙ sym told

-- However the session ran, whatever was granted and revoked meanwhile: after `release_all`, which
-- ends it, no key and no button is left whose last event at the sink was a press.
pub never_stuck :
    (s : InputInjection) (n : ℕ)
    → Reach s
    → (IsKeyDown n (presses (release_all s).sink) → ⊥)
      × (IsButtonDown n (presses (release_all s).sink) → ⊥)
never_stuck s n r =
    let told = (release_all-empty s (reach-IsTracked s r)).1 in
    let events = presses (release_all s).sink in
    (
      λ down. subst (λ p. IsIn n p.keys) told ((keys_iff n events).1 down),
      λ down. subst (λ p. IsIn n p.buttons) told ((buttons_iff n events).1 down),
    )
