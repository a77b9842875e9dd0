-- ===== src/Server/Session.antt =====
-- sardp-cli/src/bin/sardp-server.rs: the state of `run_active_session`, and what it does to the
-- world. Each call that hands something to the transport is an entry of `sent`, the newest first,
-- whether or not the transport then fails; what the transport, the encoder and the clock answer is
-- a parameter, by the number of the entry. A time is a `u64` of microseconds.
pub mod Video
pub mod Control
pub mod Arms
pub mod Loop
pub mod Invariant
pub mod Safety
pub mod Toggles
pub mod Requests
pub mod Reopening
use sardp.Base.{
  ℕ, ◌+◌, ◌*◌, ◌^◌, ◌%◌, Bool, Option, none, some, List, [], ◌∷◌, String, Result, ok, err, map_err,
  Outcome, length,
}
use sardp.Base.Action.{Action, ◌>>=◌, ◌>>◌, pure, fail, modify, get}
use sardp.Session.Messages.{PermissionUpdate, FileTransferDirection}
use sardp.Permission.PermissionSm.{PermissionSm}
use sardp.Files.HandleStore.{FileHandleStore}
use sardp.Video.VideoChannel.{VideoChannel}
use sardp.Video.InstanceSm.{ProtocolViolation}
use sardp.Server.Foreign.{Foreign}
use sardp.Server.ConnError.{ConnError, VideoError, AudioError, write, violation, video}
use sardp.Server.Injection.{InputInjection}
use sardp.Server.Messages.{ControlMessage, Codec, ClipboardRequest}

pub record SourcedFrame : Type 0 where
  pub bytes : List ℕ
  pub is_idr : Bool
  pub capture_ts : ℕ
  pub encode_done_ts : ℕ

-- `open_video_instance` of a generation under a configuration with its first frame, the reset of the
-- stream before it, a frame of a generation with its number; the streams of the clients that are taken or stopped; the tasks that
-- are spawned.
pub data Sent : Type 0 where
  control : ControlMessage → Sent
  opened_generation : ℕ → ℕ → SourcedFrame → Sent
  reset_video : Sent
  video_frame : ℕ → ℕ → SourcedFrame → Sent
  opened_audio : Sent
  audio_frame : ℕ → Sent
  accepted_capture : Sent
  stopped_stream : Sent
  spawned_transfer : ℕ → FileTransferDirection → Sent
  spawned_announce : Sent
  spawned_request : ClipboardRequest → Sent

-- How a `timeout` around the opening of an instance ends: with the future's own result, or
-- elapsed, before or after the instance was handed to the transport.
pub data Timed : Type 0 where
  in_time elapsed_before elapsed_after : Timed

pub record Network (F : Foreign) : Type 0 where
  pub control_written : ℕ → Result F.write_error (Unit {0})
  pub instance_opened : ℕ → Result (VideoError F) (Unit {0})
  pub frame_sent : ℕ → Result (VideoError F) (Unit {0})
  pub audio_opened : ℕ → Result (AudioError F) (Unit {0})
  pub audio_sent : ℕ → Result (AudioError F) (Unit {0})
  pub configuring : ℕ → Timed
  pub next_frame : ℕ → Result (ConnError F) (Option SourcedFrame)

-- The arguments that do not change. `is_synthetic`: which of the frame sources it is.
pub record SessionConfig (F : Foreign) : Type 0 where
  pub granted_permissions : ℕ
  pub session_id : List ℕ
  pub user_id : String
  pub is_synthetic : Bool
  pub codec : Codec F.cbor_error

-- The `&mut` arguments and the variables of the loop; `frames_taken` counts what was taken from
-- the frame source. The file handles are the server's, behind their mutex.
pub record SessionState : Type 0 where
  pub video_channel : VideoChannel
  pub permission_sm : PermissionSm
  pub input_injection : InputInjection
  pub input_open : Bool
  pub frame_id : ℕ
  pub last_activity : ℕ
  pub audio_open : Bool
  pub audio_sequence : ℕ
  pub file_handles : FileHandleStore
  pub frames_taken : ℕ
  pub sent : List Sent

-- How a round of the loop ends: it goes on (`continue`), `return Ok(())`, or it still draws a
-- file handle (see `Files.HandleStore`).
pub data Flow : Type 0 where
  next_round ended still_drawing : Flow

abbrev pub SessionAction : Foreign → Type 0 → Type 0
SessionAction F A = Action SessionState (ConnError F) A

module _ {F : Foreign} where
  -- Something is handed over, and the answer tried.
  unfoldable pub hand_over :
      {E : Type 0}
      → Sent
      → (E → ConnError F)
      → (ℕ → Result E (Unit {0}))
      → SessionAction F (Unit {0})
  hand_over x wrap answer s =
      (record s { sent = x ∷ s.sent }, map_err wrap (answer (length s.sent)))

  abbrev pub note : Sent → SessionAction F (Unit {0})
  note x s = (record s { sent = x ∷ s.sent }, ok tt)

  unfoldable pub write_control : Network F → ControlMessage → SessionAction F (Unit {0})
  write_control n m = hand_over (control m) write n.control_written

  -- A method of the video channel, with its violation converted.
  abbrev pub on_channel :
      {A : Type 0} → (VideoChannel → VideoChannel × Result ProtocolViolation A) → SessionAction F A
  on_channel f s =
      let (v, result) = f s.video_channel in
      (record s { video_channel = v }, map_err (λ e. violation e.reason) result)
