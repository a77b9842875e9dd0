-- ===== src/Tests/Servers.antt =====
-- The server: a handshake, input, a session's loop, and a connection that is lost.
use sardp.Base.{
  ℕ, ◌+◌, ◌%◌, ◌^◌, ◌<◌, ◌≡◌, refl, true, false, some, List, [], ◌∷◌, ok, err, arith, ltb, ◌==◌,
  if◌then◌else◌,
}
use sardp.Base.Map
use sardp.Base.Eq.{bytes_eq}
use sardp.Session.Messages.{KeyframeRequest, manual, upload}
use sardp.Permission.PermissionSet.{view, input_keyboard, file_up}
use sardp.Permission.PermissionSm
use sardp.Permission.PermissionSm.{PermissionSm, is_granted, has_bit, check_gate}
use sardp.Permission.AdminCommand.{toggle_permission}
use sardp.Files.Transfer.{required_permission_bit}
use sardp.Files.HandleStore.{issued, try_issue, draw_handle, validate}
use sardp.Video.VideoChannel
use sardp.Video.VideoChannel.{on_keyframe_request, prepare_reopen, mark_instance_streaming, reopen}
use sardp.Input.Messages.{KeyEvent, key}
use sardp.Input.Pressed.Releases.{IsKeyDown, IsButtonDown}
use sardp.Server.Foreign.{Foreign}
use sardp.Server.Messages.{Codec, FileTransferRequest, keyframe, file_transfer_accept}
use sardp.Input.ImeMode
use sardp.Input.Keys.{is_character_key}
use sardp.Video.InstanceSm
use sardp.Server.Injection
use sardp.Server.Injection.{InputInjection, key_event, handle, release_all}
use sardp.Server.Injection.Balanced.{presses}
use sardp.Server.Injection.Gate.{IsGrantedSince, only_granted, shortcut_left_down}
use sardp.Server.Session.{
  SourcedFrame, Network, SessionConfig, SessionState, in_time, control, spawned_transfer,
  next_round, opened_generation, reset_video,
}
use sardp.Server.Session.Control.{
  run_command, handle_request, file_handle_ttl_us, max_concurrent_file_transfers,
}
use sardp.Server.Session.Video.{handle_feedback}
use sardp.Server.Session.Loop.{
  Round, frame_ticked, feedback_read, input_read, run_active_session, enter,
}
use sardp.Server.Session.Invariant.{AllCovered, InSequence}
use sardp.Server.Session.Safety.{only_granted_sent, frames-InSequence, session_never_stuck}
use sardp.Server.Session.Toggles.{toggle_resets_others}
use sardp.Server.Session.Requests.{request_accepted}
use sardp.Server.Session.Reopening.{keyframe_opens_next}

-- The errors of the libraries, as numbers.
abbrev plain : Foreign
plain = record {
  connection_error = ℕ;
  read_error = ℕ;
  write_error = ℕ;
  cbor_error = ℕ;
  join_error = ℕ;
  io_error = ℕ;
  exit_status = ℕ;
}

abbrev picture : SourcedFrame
picture = record { bytes = 0 ∷ []; is_idr = true; capture_ts = 1; encode_done_ts = 2 }

-- A frame that is no key frame.
abbrev update : SourcedFrame
update = record picture { is_idr = false }

-- A transport that takes everything; the third frame of the source is its first key frame.
abbrev network : Network plain
network = record {
  control_written = λ k. ok tt;
  instance_opened = λ k. ok tt;
  frame_sent = λ k. ok tt;
  audio_opened = λ k. ok tt;
  audio_sent = λ k. ok tt;
  configuring = λ k. in_time;
  next_frame = λ k. ok (some (if ltb k 2 then update else picture));
}

abbrev bodies : Codec ℕ
bodies = record { time_sync_request = λ b. err 0; file_transfer_request = λ b. err 0 }

abbrev settings : SessionConfig plain
settings = record {
  granted_permissions = view;
  session_id = 1 ∷ [];
  user_id = "ann";
  is_synthetic = true;
  codec = bodies;
}

abbrev press : KeyEvent
press = record {
  header = record { event_id = 1; client_ts = 0 };
  down = true;
  scancode = 4;
  logical_key = 97;
  modifiers = 2;
}

abbrev let_go : KeyEvent
let_go = record press { down = false; modifiers = 0 }

abbrev honor : KeyframeRequest
honor = record { reason = manual }

-- A frame, a key frame that is asked for, a revocation of VIEW, a key.
abbrev rounds : List (Round plain)
rounds =
    record { shutdown = false; now = 1; event = frame_ticked [] }
    ∷ record { shutdown = false; now = 2; event = feedback_read (ok (keyframe honor)) }
    ∷ record { shutdown = false; now = 3; event = frame_ticked (toggle_permission view false ∷ []) }
    ∷ record { shutdown = false; now = 4; event = input_read (ok (key press)) }
    ∷ []

abbrev begun : SessionState
begun = enter settings 5 0 []

only_granted_sent_example :
    AllCovered view (run_active_session network settings rounds begun).0.sent
only_granted_sent_example = only_granted_sent network settings 5 0 [] rounds

frames-InSequence_example : InSequence 5 (run_active_session network settings rounds begun).0.sent
frames-InSequence_example = frames-InSequence network settings 5 0 [] rounds

session_never_stuck_example :
    let sink =
      (release_all (run_active_session network settings rounds begun).0.input_injection).sink in
    (IsKeyDown 4 (presses sink) → ⊥) × (IsButtonDown 4 (presses sink) → ⊥)
session_never_stuck_example = session_never_stuck network settings 5 0 [] rounds 4

-- VIEW was granted by the handshake: a toggle of INPUT_KEYBOARD grants it whatever was revoked.
toggle_resets_others_example :
    is_granted
      (run_command network settings (toggle_permission (2 ^ 1) true) begun).0.permission_sm
      (2 ^ 0)
    ≡ (if 1 == 0 then true else has_bit settings.granted_permissions (2 ^ 0))
toggle_resets_others_example = toggle_resets_others network settings begun 1 0 true refl

abbrev upload_settings : SessionConfig plain
upload_settings = record settings { granted_permissions = file_up }

abbrev uploads : SessionState
uploads = enter upload_settings 5 0 []

abbrev request : FileTransferRequest
request = record { request_id = 8; direction = upload; virtual_path = "a"; declared_size = 40 }

file_up_granted : check_gate uploads.permission_sm (required_permission_bit upload) ≡ ok tt
unfolding enter check_gate is_granted PermissionSm.state PermissionSm.new Map.lookup
    PermissionSm.initial_states Map.insert required_permission_bit
file_up_granted = refl

handle_drawn :
    (try_issue uploads.file_handles upload_settings.session_id upload_settings.user_id
      request.direction request.declared_size file_handle_ttl_us max_concurrent_file_transfers 1
      (77 ∷ [])).1
    ≡ issued 77 300000001
unfolding try_issue draw_handle Map.contains_key Map.lookup enter
handle_drawn = refl

request_accepted_example :
    let (left, result) = handle_request network upload_settings request 1 (77 ∷ []) uploads in
    (result ≡ ok next_round)
    × (left.sent
        ≡ spawned_transfer 77 upload
          ∷ control (
              file_transfer_accept (record {
                request_id = 8;
                file_handle = 77;
                resolved_size = 40;
                expiry_ts = 300000001;
              }))
          ∷ [])
    × (validate left.file_handles 77 (1 ∷ []) "ann" upload 9
        ≡ ok (record {
          session_id = 1 ∷ [];
          user_id = "ann";
          direction = upload;
          resolved_size = 40;
          expiry_ts = 300000001;
        }))
unfolding enter
request_accepted_example =
    request_accepted network upload_settings request 1 (77 ∷ []) uploads refl 77 300000001 9
      file_up_granted handle_drawn (omega arith)

honored : (on_keyframe_request begun.video_channel 2 honor).1 ≡ reopen
unfolding enter on_keyframe_request mark_instance_streaming VideoChannel.new
    InstanceSm.on_prologue_sent InstanceSm.new InstanceSm.on_generation_sent
    InstanceSm.on_encoder_config_sent InstanceSm.on_first_idr_sent
    InstanceSm.on_client_requested_reset
honored = refl

passed_over :
    (k : ℕ)
    → k < 2
    → (f : SourcedFrame) × (network.next_frame (0 + k) ≡ ok (some f)) × (f.is_idr ≡ false)
passed_over k b = (update, ground arith, refl)

keyframe_opens_next_example :
    let after = (on_keyframe_request begun.video_channel 2 honor).0 in
    let (left, result) = handle_feedback network 2 (keyframe honor) begun in
    (result ≡ ok next_round)
    × (left.sent ≡ opened_generation ((after.generation + 1) % 2 ^ 64) 1 picture ∷ reset_video ∷ [])
    × (left.video_channel ≡ (mark_instance_streaming (prepare_reopen after).0).0)
    × (left.permission_sm ≡ begun.permission_sm)
    × (left.frame_id ≡ 1)
    × (left.frames_taken ≡ begun.frames_taken + 3)
unfolding enter
keyframe_opens_next_example =
    keyframe_opens_next network begun 2 honor picture 2 honored refl (omega arith)
      (record { passed_over = passed_over; found = refl; is_key = refl })

abbrev granting : PermissionSm
granting = PermissionSm.new input_keyboard

abbrev injection : InputInjection
injection = Injection.new

keyboard_granted : is_granted granting input_keyboard ≡ true
unfolding is_granted PermissionSm.state PermissionSm.new Map.lookup PermissionSm.initial_states
    Map.insert
keyboard_granted = refl

only_granted_example : IsGrantedSince granting injection (handle injection (key press) granting).0
only_granted_example = only_granted injection (key press) granting

shortcut_left_down_example :
    let pressed = (handle injection (key press) granting).0 in
    (pressed.sink ≡ key_event 4 true ∷ injection.sink)
    × ((handle pressed (key let_go) granting).0.sink ≡ pressed.sink)
unfolding Injection.new ImeMode.new is_character_key
shortcut_left_down_example =
    shortcut_left_down injection press let_go granting refl refl keyboard_granted refl refl refl
      (λ e. ground arith) refl
