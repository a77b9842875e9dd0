-- ===== src/Input/Session.antt =====
-- src/input_session.rs: the input stream, from both sides.
use sardp.Base.{ℕ, ◌≡◌, ◌==◌, refl, List, ◌++◌, Result, ok, err, ◌>>=◌, map_err, if◌then◌else◌}
use mathlib.Core.List.{flatten}
use sardp.Session.Messages.{ImeModeChange}
use sardp.Wire.StreamKind.{StreamKind, max_envelope_length}
use sardp.Wire.Envelope.RoundTrip.{frame}
use sardp.Wire.Reader.{EnvelopeReader, read_envelope}
use sardp.Wire.Reader.Chunks.{reads, IsFrame, read_envelope-reads}
use sardp.Server.Foreign.{Foreign}
use sardp.Server.ConnError.{ReadInputError}
use sardp.Input.Messages.{
  KeyEvent, TextInput, ImeComposition, MouseMove, MouseButton, Wheel, InputMessage, key, text,
  ime_composition, mouse_move, mouse_button, wheel, ime_mode_change,
}

pub record InputBodies (D : Type 0) : Type 0 where
  pub encode_key : KeyEvent → List ℕ
  pub decode_key : List ℕ → Result D KeyEvent
  pub encode_text : TextInput → List ℕ
  pub decode_text : List ℕ → Result D TextInput
  pub encode_composition : ImeComposition → List ℕ
  pub decode_composition : List ℕ → Result D ImeComposition
  pub encode_move : MouseMove → List ℕ
  pub decode_move : List ℕ → Result D MouseMove
  pub encode_button : MouseButton → List ℕ
  pub decode_button : List ℕ → Result D MouseButton
  pub encode_wheel : Wheel → List ℕ
  pub decode_wheel : List ℕ → Result D Wheel
  pub encode_mode_change : ImeModeChange → List ℕ
  pub decode_mode_change : List ℕ → Result D ImeModeChange

-- `type_id::KEY_EVENT` up to `IME_MODE_CHANGE`.
abbrev key_event : ℕ
key_event = 0x001f

abbrev text_input : ℕ
text_input = 0x0020

abbrev ime_composition_event : ℕ
ime_composition_event = 0x0021

abbrev mouse_move_event : ℕ
mouse_move_event = 0x0022

abbrev mouse_button_event : ℕ
mouse_button_event = 0x0023

abbrev wheel_event : ℕ
wheel_event = 0x0024

abbrev ime_mode_change_event : ℕ
ime_mode_change_event = 0x0025

module _ {D : Type 0} (bodies : InputBodies D) where
  -- What the function that sends this message writes: the type and the body of its envelope.
  unfoldable pub sent_as : InputMessage → ℕ × List ℕ
  sent_as (key m) = (key_event, bodies.encode_key m)
  sent_as (text m) = (text_input, bodies.encode_text m)
  sent_as (ime_composition m) = (ime_composition_event, bodies.encode_composition m)
  sent_as (mouse_move m) = (mouse_move_event, bodies.encode_move m)
  sent_as (mouse_button m) = (mouse_button_event, bodies.encode_button m)
  sent_as (wheel m) = (wheel_event, bodies.encode_wheel m)
  sent_as (ime_mode_change m) = (ime_mode_change_event, bodies.encode_mode_change m)

  -- The body of this message decodes to what was encoded.
  abbrev Decodes : InputMessage → Type 0
  Decodes (key m) = bodies.decode_key (bodies.encode_key m) ≡ ok m
  Decodes (text m) = bodies.decode_text (bodies.encode_text m) ≡ ok m
  Decodes (ime_composition m) = bodies.decode_composition (bodies.encode_composition m) ≡ ok m
  Decodes (mouse_move m) = bodies.decode_move (bodies.encode_move m) ≡ ok m
  Decodes (mouse_button m) = bodies.decode_button (bodies.encode_button m) ≡ ok m
  Decodes (wheel m) = bodies.decode_wheel (bodies.encode_wheel m) ≡ ok m
  Decodes (ime_mode_change m) = bodies.decode_mode_change (bodies.encode_mode_change m) ≡ ok m

abbrev pub limit : ℕ
limit = max_envelope_length StreamKind.input

module _ {F : Foreign} where
  abbrev read_as :
      {A : Type 0}
      → (A → InputMessage)
      → Result F.cbor_error A
      → Result (ReadInputError F) InputMessage
  read_as wrap (ok m) = ok (wrap m)
  read_as wrap (err e) = err (ReadInputError.decode e)

  module _ (bodies : InputBodies F.cbor_error) where
    unfoldable pub dispatch : ℕ × List ℕ → Result (ReadInputError F) InputMessage
    dispatch (t, payload) =
        if t == key_event
        then read_as key (bodies.decode_key payload)
        else if t == text_input
        then read_as text (bodies.decode_text payload)
        else if t == ime_composition_event
        then read_as ime_composition (bodies.decode_composition payload)
        else if t == mouse_move_event
        then read_as mouse_move (bodies.decode_move payload)
        else if t == mouse_button_event
        then read_as mouse_button (bodies.decode_button payload)
        else if t == wheel_event
        then read_as wheel (bodies.decode_wheel payload)
        else if t == ime_mode_change_event
        then read_as ime_mode_change (bodies.decode_mode_change payload)
        else err (ReadInputError.unexpected_type t)

    -- `InputReceiver::read_message`.
    unfoldable pub read_message :
        EnvelopeReader F.read_error
        → EnvelopeReader F.read_error × Result (ReadInputError F) InputMessage
    unfolding dispatch
    read_message r =
        let (reader, result) = read_envelope r limit in
        (reader, map_err ReadInputError.read_failed result >>= dispatch)

    dispatch-sent_as : (m : InputMessage) → Decodes bodies m → dispatch (sent_as bodies m) ≡ ok m
    unfolding dispatch sent_as
    dispatch-sent_as (key m) h = rw h refl
    dispatch-sent_as (text m) h = rw h refl
    dispatch-sent_as (ime_composition m) h = rw h refl
    dispatch-sent_as (mouse_move m) h = rw h refl
    dispatch-sent_as (mouse_button m) h = rw h refl
    dispatch-sent_as (wheel m) h = rw h refl
    dispatch-sent_as (ime_mode_change m) h = rw h refl

    -- What was sent as any message is read as that message, however the transport cuts the bytes into
    -- reads, and the bytes behind it are left, where its envelope fits the stream and its body decodes
    -- to what was encoded.
    pub read_message-sent_as :
        (m : InputMessage)
        → Decodes bodies m
        → IsFrame limit (sent_as bodies m)
        → (chunks : List (List ℕ)) (tail : List (Result F.read_error (List ℕ))) (buf rest : List ℕ)
        → buf ++ flatten chunks ≡ frame (sent_as bodies m).0 (sent_as bodies m).1 ++ rest
        → (later : List (List ℕ)) × (kept : List ℕ) × (read_message
              (record { recv = reads chunks tail; buf = buf })
            ≡ (record { recv = reads later tail; buf = kept }, ok m))
          × (kept ++ flatten later ≡ rest)
    unfolding read_message
    read_message-sent_as m decoded fits chunks tail buf rest e =
        let sent = sent_as bodies m in
        let (later, kept, got, left) =
          read_envelope-reads sent.0 limit sent.1 fits chunks tail buf rest e in
        (later, kept, rw (got, dispatch-sent_as m decoded) refl, left)
