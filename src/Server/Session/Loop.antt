-- ===== src/Server/Session/Loop.antt =====
-- sardp-cli/src/bin/sardp-server.rs: `run_active_session`, one round of its `select!` and the loop
-- over the rounds. What is ready in a round, and the time, are the round's input.
use sardp.Base.{ℕ, ◌+◌, ◌*◌, Bool, false, List, [], ◌∷◌, Result, ok, map_err, leb, if◌then◌else◌}
use sardp.Base.Action.{◌>>=◌, ◌>>◌, pure, fail, try, get}
use sardp.Session.ReasonCode.{no_reason}
use sardp.Permission.AdminCommand.{AdminCommand}
use sardp.Wire.StreamKind.{StreamKind}
use sardp.Wire.Reader.{StreamReadError}
use sardp.Input.Messages.{InputMessage}
use sardp.Files.HandleStore.{FileHandleStore}
use sardp.Permission.PermissionSm
use sardp.Video.VideoChannel
use sardp.Video.VideoChannel.{mark_instance_streaming}
use sardp.Server.Injection
use sardp.Server.Foreign.{Foreign}
use sardp.Server.ConnError.{
  ConnError, ReadInputError, ReadFeedbackError, ClipboardSessionError, read_failed, feedback,
  clipboard, idle_timeout,
}
use sardp.Server.Messages.{FeedbackMessage, ClipboardFormats, keep_alive, closes_session}
use sardp.Server.Session.{
  Network, SessionConfig, SessionState, SessionAction, Flow, next_round, ended, control, note,
  write_control,
}
use sardp.Server.Session.Video.{handle_feedback}
use sardp.Server.Session.Control.{handle_control, tick_frame}
use sardp.Server.Session.Arms.{
  CaptureConfig, handle_desktop, tick_audio, handle_uni, handle_input, handle_clipboard,
}

abbrev pub idle_timeout_us : ℕ
idle_timeout_us = 45 * 1000000

-- What the arm that was chosen received. A control message comes with the second read of the clock
-- and with the words of the generator; an input message only on an open input stream.
pub data Event (F : Foreign) : Type 0 where
  control_read : Result (StreamReadError F.read_error) (ℕ × List ℕ) → ℕ → List ℕ → Event F
  keepalive_ticked : Event F
  frame_ticked : List AdminCommand → Event F
  desktop_ready : Event F
  feedback_read : Result (ReadFeedbackError F) FeedbackMessage → Event F
  audio_ticked : Event F
  uni_accepted : Result (ConnError F) StreamKind → CaptureConfig F → Event F
  input_read : Result (ReadInputError F) InputMessage → Event F
  formats_accepted : Result (ClipboardSessionError F) ClipboardFormats → Event F

-- A round: whether a shutdown was notified, the time, and the event of another arm.
pub record Round (F : Foreign) : Type 0 where
  pub shutdown : Bool
  pub now : ℕ
  pub event : Event F

module _ {F : Foreign} (n : Network F) (cfg : SessionConfig F) where
  -- `last_activity = Instant::now()`.
  abbrev touch : ℕ → SessionAction F (Unit {0})
  touch now s = (record s { last_activity = now }, ok tt)

  unfoldable pub run_arm : ℕ → Event F → SessionAction F Flow
  unfolding write_control handle_feedback handle_control tick_frame handle_desktop tick_audio
      handle_uni handle_input handle_clipboard
  run_arm now (control_read envelope t3 words) = do
    (type_raw, payload) ← try (map_err read_failed envelope)
    touch now
    handle_control n cfg type_raw payload now t3 words
  run_arm now keepalive_ticked = do write_control n keep_alive; pure next_round
  run_arm now (frame_ticked commands) = tick_frame n cfg commands
  run_arm now desktop_ready = handle_desktop n
  run_arm now (feedback_read message) = do
    touch now
    m ← try (map_err feedback message)
    handle_feedback n now m
  run_arm now audio_ticked = tick_audio n
  run_arm now (uni_accepted kind config) = do k ← try kind; handle_uni k config
  run_arm now (input_read message) = do
    s ← get
    if s.input_open then handle_input now message else pure next_round
  run_arm now (formats_accepted formats) = do
    f ← try (map_err clipboard formats)
    handle_clipboard f

  -- `select!` is biased: the shutdown, then the idle deadline, then the others.
  unfoldable pub run_round : Round F → SessionAction F Flow
  unfolding run_arm
  run_round round = do
    s ← get
    if round.shutdown
        then (do note (control (closes_session no_reason)); pure ended)
        else if leb (s.last_activity + idle_timeout_us) round.now
        then fail idle_timeout
        else run_arm round.now round.event

  abbrev pub go_on : SessionAction F Flow → Flow → SessionAction F Flow
  go_on rest next_round = rest
  go_on rest flow = pure flow

  -- The loop, over the rounds that are given.
  unfoldable pub run_active_session : List (Round F) → SessionAction F Flow
  unfolding run_round
  run_active_session [] = pure next_round
  run_active_session (round ∷ rounds) = do
    flow ← run_round round
    go_on (run_active_session rounds) flow

-- What the loop starts from: the channel that `handle_connection` has set up at the generation
-- `start`, and the permissions of the handshake.
unfoldable pub enter : {F : Foreign} → SessionConfig F → ℕ → ℕ → FileHandleStore → SessionState
enter cfg start now file_handles = record {
  video_channel = (mark_instance_streaming (VideoChannel.new start)).0;
  permission_sm = PermissionSm.new cfg.granted_permissions;
  input_injection = Injection.new;
  input_open = false;
  frame_id = 1;
  last_activity = now;
  audio_open = false;
  audio_sequence = 0;
  file_handles = file_handles;
  frames_taken = 0;
  sent = [];
}
