-- ===== src/Server/Session/Arms.antt =====
-- sardp-cli/src/bin/sardp-server.rs: the arms of the desktop's frames, the sound, the streams that
-- the client opens, its input and its clipboard.
use sardp.Base.{
  ℕ, ◌+◌, ◌%◌, ◌^◌, true, false, not, List, [], ◌∷◌, Result, ok, err, map_err, ◌==◌, if◌then◌else◌,
}
use sardp.Base.Action.{◌>>=◌, ◌>>◌, pure, fail, try, modify, get, let_some}
use sardp.Session.ReasonCode.{protocol_unexpected_message}
use sardp.Permission.PermissionSet.{view, audio_playback, audio_capture, clip_write}
use sardp.Permission.PermissionSm.{is_granted}
use sardp.Wire.StreamKind.{StreamKind}
use sardp.Wire.Reader.{StreamReadError}
use sardp.Input.Messages.{InputMessage}
use sardp.Server.Foreign.{Foreign}
use sardp.Server.ConnError.{violation, audio, capture, AudioError}
use sardp.Server.Injection.{handle, release_all}
use sardp.Server.Messages.{ClipboardFormats, ClipboardFormatEntry}
use sardp.Server.Session.{
  SourcedFrame, Network, SessionAction, Flow, next_round, opened_audio, audio_frame,
  accepted_capture, stopped_stream, spawned_request, hand_over, note,
}
use sardp.Server.Session.Video.{next_frame, send_next}

-- What `read_envelope` gives on a capture stream: the type, and the body as a configuration.
abbrev pub CaptureConfig : Foreign → Type 0
CaptureConfig F = Result (StreamReadError F.read_error) (ℕ × Result F.cbor_error (Unit {0}))

abbrev audio_config : ℕ
audio_config = 0x001b

module _ {F : Foreign} (n : Network F) where
  unfoldable pub send_if_granted : SourcedFrame → SessionAction F Flow
  unfolding send_next
  send_if_granted frame = do
    s ← get
    if not (is_granted s.permission_sm view) then pure next_round else send_next n frame

  -- `desktop?.ok_or_else(..)?`, and the gate.
  unfoldable pub handle_desktop : SessionAction F Flow
  unfolding next_frame send_if_granted
  handle_desktop = do
    frame ← next_frame n
    let_some frame (fail (capture "desktop capture stopped")) (send_if_granted)

  unfoldable pub open_playback : SessionAction F (Unit {0})
  open_playback = do
    hand_over opened_audio audio n.audio_opened
    modify (λ s. record s { audio_open = true })

  unfoldable pub send_sound : SessionAction F Flow
  send_sound = do
    s ← get
    hand_over (audio_frame s.audio_sequence) audio n.audio_sent
    modify (λ t. record t { audio_sequence = (t.audio_sequence + 1) % 2 ^ 64 })
    pure next_round

  -- The arm of the sound's tick.
  unfoldable pub tick_audio : SessionAction F Flow
  unfolding open_playback send_sound
  tick_audio = do
    s ← get
    if not (is_granted s.permission_sm audio_playback)
        then pure next_round
        else if s.audio_open
        then send_sound
        else (do open_playback; send_sound)

module _ {F : Foreign} where
  -- src/audio_session.rs: `accept_audio_capture_from_reader`, where it was granted.
  unfoldable read_capture_config : CaptureConfig F → Result (AudioError F) (Unit {0})
  read_capture_config (err e) = err (AudioError.read_failed e)
  read_capture_config (ok (type_raw, config)) =
      if not (type_raw == audio_config)
      then err (AudioError.protocol_violation protocol_unexpected_message)
      else map_err AudioError.decode config

  unfoldable pub accept_capture : CaptureConfig F → SessionAction F Flow
  unfolding read_capture_config
  accept_capture config = do
    s ← get
    if not (is_granted s.permission_sm audio_capture)
        then (do note stopped_stream; pure next_round)
        else (do
          try (map_err audio (read_capture_config config))
          note accepted_capture
          pure next_round)

  -- The arm of a stream that the client opened, of the kind in its prologue.
  unfoldable pub handle_uni : StreamKind → CaptureConfig F → SessionAction F Flow
  unfolding accept_capture
  handle_uni StreamKind.audio_capture config = accept_capture config
  handle_uni StreamKind.input config = do
    s ← get
    if s.input_open
        then (do note stopped_stream; pure next_round)
        else (do modify (λ t. record t { input_open = true }); pure next_round)
  handle_uni _ config = do note stopped_stream; pure next_round

  unfoldable pub inject : InputMessage → SessionAction F (Unit {0})
  inject message s =
      let (injection, result) = handle s.input_injection message s.permission_sm in
      (record s { input_injection = injection }, map_err violation result)

  -- The input arm: a message, or the end of the stream.
  unfoldable pub handle_input : {E : Type 0} → ℕ → Result E InputMessage → SessionAction F Flow
  unfolding inject
  handle_input now (ok message) = do
    modify (λ s. record s { last_activity = now })
    inject message
    pure next_round
  handle_input now (err e) = do
    modify (λ s. record s { input_injection = release_all s.input_injection; input_open = false })
    pure next_round

  abbrev pub request_first : ClipboardFormats → List ClipboardFormatEntry → SessionAction F Flow
  request_first announced [] = pure next_round
  request_first announced (first_format ∷ formats) = do
    note (
        spawned_request (record {
          request_id = announced.request_id;
          namespace = first_format.namespace;
          format_id = first_format.format_id;
        }))
    pure next_round

  -- The clipboard arm, of formats that were announced.
  unfoldable pub handle_clipboard : ClipboardFormats → SessionAction F Flow
  handle_clipboard announced = do
    s ← get
    if not (is_granted s.permission_sm clip_write)
        then pure next_round
        else request_first announced announced.formats
