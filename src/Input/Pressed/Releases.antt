-- ===== src/Input/Pressed/Releases.antt =====
-- What is released is what was pressed last and not released since.
use sardp.Base.{
  ℕ, ◌≡◌, ◌⊎◌, ◌↔◌, refl, inl, inr, Bool, true, false, List, [], ◌∷◌, ◌++◌, map, ◌==◌, arith,
  if◌then◌else◌, Bool-cases,
}
use sardp.Input.Pressed.{
  Release, key, button, insert, remove, PressedInputs, new, on_key, on_button, is_empty,
  take_releases,
}
use sardp.Input.Pressed.Ordered.{
  IsIn, IsAscending, insert-IsIn, remove-IsIn, insert-IsAscending, remove-IsAscending,
}

-- The events that were injected, the newest first.
pub data Event : Type 0 where
  key_event button_event : ℕ → Bool → Event

abbrev pub after : List Event → PressedInputs
after [] = new
after (key_event k down ∷ older) = on_key (after older) k down
after (button_event b down ∷ older) = on_button (after older) b down

-- The last event of the key was a press.
abbrev pub IsKeyDown : ℕ → List Event → Type 0
IsKeyDown k [] = ⊥
IsKeyDown k (key_event j down ∷ older) =
    ((k ≡ j) × (down ≡ true)) ⊎ (((k ≡ j) → ⊥) × IsKeyDown k older)
IsKeyDown k (button_event b down ∷ older) = IsKeyDown k older

abbrev pub IsButtonDown : ℕ → List Event → Type 0
IsButtonDown b [] = ⊥
IsButtonDown b (key_event k down ∷ older) = IsButtonDown b older
IsButtonDown b (button_event j down ∷ older) =
    ((b ≡ j) × (down ≡ true)) ⊎ (((b ≡ j) → ⊥) × IsButtonDown b older)

keys-IsAscending : (events : List Event) → IsAscending (after events).keys
unfolding new on_key on_button
keys-IsAscending [] = tt
keys-IsAscending (key_event k true ∷ older) =
    insert-IsAscending k (after older).keys (keys-IsAscending older)
keys-IsAscending (key_event k false ∷ older) =
    remove-IsAscending k (after older).keys (keys-IsAscending older)
keys-IsAscending (button_event b true ∷ older) = keys-IsAscending older
keys-IsAscending (button_event b false ∷ older) = keys-IsAscending older

buttons-IsAscending : (events : List Event) → IsAscending (after events).buttons
unfolding new on_key on_button
buttons-IsAscending [] = tt
buttons-IsAscending (key_event k true ∷ older) = buttons-IsAscending older
buttons-IsAscending (key_event k false ∷ older) = buttons-IsAscending older
buttons-IsAscending (button_event b true ∷ older) =
    insert-IsAscending b (after older).buttons (buttons-IsAscending older)
buttons-IsAscending (button_event b false ∷ older) =
    remove-IsAscending b (after older).buttons (buttons-IsAscending older)

-- A press adds, a release takes away, whatever was there before.
pressed_iff :
    (k j : ℕ) (down : Bool) (xs : List ℕ) (Before : Type 0)
    → IsAscending xs
    → (IsIn k xs ↔ Before)
    → IsIn k (if down then insert j xs else remove j xs)
      ↔ (((k ≡ j) × (down ≡ true)) ⊎ (((k ≡ j) → ⊥) × Before))
pressed_iff k j true xs Before a (to, from) =
    let (split, join) = insert-IsIn j k xs in
    (
      λ i. elim (Bool-cases (k == j)) [
        | inl e ↦ inl (ground arith, refl)
        | inr e ↦ inr (
          λ same. ground arith,
          elim (split i) [ inl same ↦ absurd (ground arith) | inr old ↦ to old ],
        )
      ],
      λ h. elim h [ inl (same, d) ↦ join (inl same) | inr (differs, old) ↦ join (inr (from old)) ],
    )
pressed_iff k j false xs Before a (to, from) =
    let (split, join) = remove-IsIn j k xs a in
    (
      λ i. inr ((split i).0, to (split i).1),
      λ h. elim h [ inl (same, d) ↦ ground arith | inr (differs, old) ↦ join (differs, from old) ],
    )

pub keys_iff : (k : ℕ) (events : List Event) → IsIn k (after events).keys ↔ IsKeyDown k events
unfolding new on_key on_button
keys_iff k [] = (λ h. h, λ h. h)
keys_iff k (key_event j true ∷ older) =
    pressed_iff k j true (after older).keys (IsKeyDown k older) (keys-IsAscending older)
      (keys_iff k older)
keys_iff k (key_event j false ∷ older) =
    pressed_iff k j false (after older).keys (IsKeyDown k older) (keys-IsAscending older)
      (keys_iff k older)
keys_iff k (button_event b true ∷ older) = keys_iff k older
keys_iff k (button_event b false ∷ older) = keys_iff k older

pub buttons_iff :
    (b : ℕ) (events : List Event) → IsIn b (after events).buttons ↔ IsButtonDown b events
unfolding new on_key on_button
buttons_iff b [] = (λ h. h, λ h. h)
buttons_iff b (key_event j true ∷ older) = buttons_iff b older
buttons_iff b (key_event j false ∷ older) = buttons_iff b older
buttons_iff b (button_event j true ∷ older) =
    pressed_iff b j true (after older).buttons (IsButtonDown b older) (buttons-IsAscending older)
      (buttons_iff b older)
buttons_iff b (button_event j false ∷ older) =
    pressed_iff b j false (after older).buttons (IsButtonDown b older) (buttons-IsAscending older)
      (buttons_iff b older)

abbrev pub IsOneOf : Release → List Release → Type 0
IsOneOf r [] = ⊥
IsOneOf r (x ∷ releases) = (r ≡ x) ⊎ IsOneOf r releases

released_key :
    (k : ℕ) (buttons keys : List ℕ)
    → IsOneOf (key k) (map (λ b. button b) buttons ++ map (λ j. key j) keys) ↔ IsIn k keys
released_key k [] [] = (λ h. h, λ h. h)
released_key k [] (j ∷ keys) =
    let ih = released_key k [] keys in (λ h. ground (arith, ih), λ h. ground (arith, ih))
released_key k (b ∷ buttons) keys =
    let ih = released_key k buttons keys in (λ h. ground (arith, ih), λ h. ground (arith, ih))

released_button :
    (b : ℕ) (buttons keys : List ℕ)
    → IsOneOf (button b) (map (λ b. button b) buttons ++ map (λ j. key j) keys) ↔ IsIn b buttons
released_button b [] [] = (λ h. h, λ h. h)
released_button b [] (j ∷ keys) =
    let ih = released_button b [] keys in (λ h. ground (arith, ih), λ h. ground (arith, ih))
released_button b (c ∷ buttons) keys =
    let ih = released_button b buttons keys in (λ h. ground (arith, ih), λ h. ground (arith, ih))

-- After any events, the releases are exactly those of the keys and of the buttons whose last event
-- was a press, and nothing is pressed behind them.
take_releases-exact :
    (events : List Event) (n : ℕ)
    → (IsOneOf (key n) (take_releases (after events)).1 ↔ IsKeyDown n events)
      × (IsOneOf (button n) (take_releases (after events)).1 ↔ IsButtonDown n events)
      × (is_empty (take_releases (after events)).0 ≡ true)
unfolding take_releases is_empty
take_releases-exact events n =
    let p = after events in
    let (k1, k2) = released_key n p.buttons p.keys in
    let (b1, b2) = released_button n p.buttons p.keys in
    let (m1, m2) = keys_iff n events in
    let (c1, c2) = buttons_iff n events in
    ((λ h. m1 (k1 h), λ h. k2 (m2 h)), (λ h. c1 (b1 h), λ h. b2 (c2 h)), refl)
