-- ===== src/Tests/Clients.antt =====
-- Input and clock synchronization.
use mathlib.Core.List.{flatten}
use sardp.Wire.StreamKind.{max_envelope_length}
use sardp.Wire.Envelope.RoundTrip.{frame}
use sardp.Wire.Reader.Chunks.{reads, IsFrame}
use sardp.Server.Foreign.{Foreign}
use sardp.Input.Messages.{KeyEvent, key}
use sardp.Input.Session.{InputBodies, limit, sent_as, read_message, read_message-sent_as}
use sardp.Base.{
  ℕ, ◌+◌, ◌*◌, ◌^◌, ◌-◌, ◌≤◌, ◌≡◌, refl, true, false, [], ◌∷◌, arith, List, ◌++◌, Result, ok, err,
}
use sardp.Base.Int.{pos_part, neg_part, negsuc, sub_i64, add_i64, wrap_i64, ◌+ℤ◌, ◌-ℤ◌, half}
use sardp.Session.Messages.{client_side, remote_side, ImeModeChange}
use sardp.Input.ImeMode
use sardp.Input.ImeMode.{ImeModeSm, on_mode_change}
use sardp.Input.ImeMode.Boundary.{modes, modes_by_boundary, on_mode_change-modes}
use sardp.Input.Keys.{should_inject_key, is_character_key}
use sardp.TimeSync.{compute}
use sardp.TimeSync.Accuracy.{compute_accurate}

-- The letter a comes as text, the letter a with Ctrl as a key.
letter : should_inject_key client_side 0x04 0 ≡ false
unfolding should_inject_key is_character_key
letter = refl

shortcut : should_inject_key client_side 0x04 2 ≡ true
unfolding should_inject_key is_character_key
shortcut = refl

abbrev change : ImeModeChange
change = record { mode = remote_side; effective_after_event_id = 5 }

on_mode_change-modes_example :
    modes (on_mode_change ImeMode.new change) (4 ∷ 5 ∷ 6 ∷ [])
    ≡ modes_by_boundary ImeMode.new.current change (4 ∷ 5 ∷ 6 ∷ [])
on_mode_change-modes_example =
    on_mode_change-modes ImeMode.new change (4 ∷ 5 ∷ 6 ∷ [])
      ((omega arith, (omega arith, tt)), ((omega arith, tt), (tt, tt)))

-- The responder's clock is 50 ahead; 10 there, 5 of work, 20 back.
compute_accurate_example :
    let r = compute 100 160 165 135 in
    (r.rtt_us ≡ 10 + 20)
    × (2 * pos_part r.offset_us + 2 * 0 ≤ 2 * 50 + 2 * neg_part r.offset_us + (10 + 20) + 1)
    × (2 * 50 + 2 * neg_part r.offset_us ≤ 2 * pos_part r.offset_us + 2 * 0 + (10 + 20) + 1)
compute_accurate_example =
    compute_accurate 100 160 165 135 50 0 10 5 20 refl refl refl (omega arith) (omega arith)

-- An answer with the largest times of `i64` wraps around: the offset comes out as -1.
overflow : compute 0 (2 ^ 63 - 1) (2 ^ 63 - 1) 0 ≡ record { offset_us = negsuc 0; rtt_us = 0 }
unfolding compute sub_i64 add_i64 wrap_i64 ◌+ℤ◌ ◌-ℤ◌ half
overflow = refl

abbrev pressed_a : KeyEvent
pressed_a = record {
  header = record { event_id = 1; client_ts = 0 };
  down = true;
  scancode = 4;
  logical_key = 97;
  modifiers = 0;
}

abbrev decode_key : List ℕ → Result ℕ KeyEvent
decode_key (id ∷ scancode ∷ []) = ok (record {
  header = record { event_id = id; client_ts = 0 };
  down = true;
  scancode = scancode;
  logical_key = 97;
  modifiers = 0;
})
decode_key _ = err 0

-- An encoding of a key that goes down.
abbrev bodies : InputBodies ℕ
bodies = record {
  encode_key = λ m. m.header.event_id ∷ m.scancode ∷ [];
  decode_key = decode_key;
  encode_text = λ m. [];
  decode_text = λ b. err 0;
  encode_composition = λ m. [];
  decode_composition = λ b. err 0;
  encode_move = λ m. [];
  decode_move = λ b. err 0;
  encode_button = λ m. [];
  decode_button = λ b. err 0;
  encode_wheel = λ m. [];
  decode_wheel = λ b. err 0;
  encode_mode_change = λ m. [];
  decode_mode_change = λ b. err 0;
}

abbrev plain : Foreign
plain = record {
  connection_error = ℕ;
  read_error = ℕ;
  write_error = ℕ;
  cbor_error = ℕ;
  join_error = ℕ;
  io_error = ℕ;
  exit_status = ℕ;
}

abbrev bytes : List ℕ
bytes = frame (sent_as bodies (key pressed_a)).0 (sent_as bodies (key pressed_a)).1

key_fits : IsFrame limit (sent_as bodies (key pressed_a))
unfolding sent_as max_envelope_length
key_fits = (omega arith, omega arith, omega arith)

bytes_read : flatten (bytes ∷ []) ≡ bytes ++ []
unfolding flatten
bytes_read = refl

read_message-sent_as_example :
    (later : List (List ℕ)) × (kept : List ℕ) × (read_message {F = plain} bodies
        (record { recv = reads (bytes ∷ []) []; buf = [] })
      ≡ (record { recv = reads later []; buf = kept }, ok (key pressed_a)))
    × (kept ++ flatten later ≡ [])
read_message-sent_as_example =
    read_message-sent_as {F = plain} bodies (key pressed_a) refl key_fits (bytes ∷ []) [] [] []
      bytes_read
