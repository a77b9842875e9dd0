-- ===== src/Server/Session/Control.antt =====
-- sardp-cli/src/bin/sardp-server.rs: the control messages and the commands of the administrator.
use sardp.Base.{ℕ, ◌*◌, not, List, [], ◌∷◌, Result, ok, err, map_err, ◌==◌, if◌then◌else◌}
use sardp.Base.Action.{◌>>=◌, ◌>>◌, pure, try, modify, get, let_some, if_err}
use sardp.Session.ReasonCode.{ReasonCode, protocol_unexpected_message, policy_file_policy_rejected}
use sardp.Permission.PermissionSet.{view, clip_read}
use sardp.Permission.PermissionSm.{is_granted, check_gate, apply_update, build_permission_toggle}
use sardp.Permission.AdminCommand.{AdminCommand, toggle_permission, send_clipboard}
use sardp.Files.HandleStore.{Issued, refused, drawing, issued, try_issue}
use sardp.Files.Transfer.{required_permission_bit}
use sardp.Server.Foreign.{Foreign}
use sardp.Server.ConnError.{violation, time_sync, TimeSyncError}
use sardp.Server.Messages.{
  TimeSyncResponse, FileTransferRequest, time_sync_request, session_close, file_transfer_request,
  time_sync_response, file_transfer_accept, file_transfer_reject, permission_update,
}
use sardp.Server.Session.{
  Network, SessionConfig, SessionAction, Flow, next_round, ended, still_drawing, spawned_transfer,
  spawned_announce, note, write_control,
}
use sardp.Server.Session.Video.{next_frame, send_next}

abbrev pub file_handle_ttl_us : ℕ
file_handle_ttl_us = 300 * 1000000

abbrev pub max_concurrent_file_transfers : ℕ
max_concurrent_file_transfers = 64

-- src/timesync.rs: `t2` and `t3` are the two reads of the clock.
unfoldable answer_time_sync_request :
    {F : Foreign} → SessionConfig F → ℕ → List ℕ → ℕ → ℕ → Result (TimeSyncError F) TimeSyncResponse
answer_time_sync_request cfg type_raw payload t2 t3 =
    if not (type_raw == time_sync_request)
    then err (TimeSyncError.unexpected_type type_raw)
    else (elim (cfg.codec.time_sync_request payload) [
      | err e ↦ err (TimeSyncError.decode e)
      | ok request ↦ ok (record { t1 = request.t1; t2 = t2; t3 = t3 })
    ])

module _ {F : Foreign} (n : Network F) (cfg : SessionConfig F) where
  unfoldable pub reject : FileTransferRequest → ReasonCode → SessionAction F Flow
  unfolding write_control
  reject request reason = do
    write_control n
        (file_transfer_reject (record { request_id = request.request_id; reason = reason }))
    pure next_round

  -- `try_issue` on the server's handles, at the time `now` of the clock.
  unfoldable pub issue_handle : FileTransferRequest → ℕ → List ℕ → SessionAction F Issued
  issue_handle request now words s =
      let (store, answer) =
        try_issue s.file_handles cfg.session_id cfg.user_id request.direction request.declared_size
          file_handle_ttl_us max_concurrent_file_transfers now words in
      (record s { file_handles = store }, ok answer)

  unfoldable pub answer_issued : FileTransferRequest → Issued → SessionAction F Flow
  unfolding reject write_control
  answer_issued request refused = reject request policy_file_policy_rejected
  answer_issued request drawing = pure still_drawing
  answer_issued request (issued file_handle expiry_ts) = do
    write_control n (
        file_transfer_accept (record {
          request_id = request.request_id;
          file_handle = file_handle;
          resolved_size = request.declared_size;
          expiry_ts = expiry_ts;
        }))
    note (spawned_transfer file_handle request.direction)
    pure next_round

  unfoldable pub handle_request : FileTransferRequest → ℕ → List ℕ → SessionAction F Flow
  unfolding reject issue_handle answer_issued
  handle_request request now words = do
    s ← get
    if_err (check_gate s.permission_sm (required_permission_bit request.direction)) (reject request)
        (do answer ← issue_handle request now words; answer_issued request answer)

  -- The control arm, of an envelope that was read.
  unfoldable pub handle_control : ℕ → List ℕ → ℕ → ℕ → List ℕ → SessionAction F Flow
  unfolding handle_request answer_time_sync_request write_control
  handle_control type_raw payload t2 t3 words =
      if type_raw == time_sync_request
      then (do
        response ← try (map_err time_sync (answer_time_sync_request cfg type_raw payload t2 t3))
        write_control n (time_sync_response response)
        pure next_round)
      else if type_raw == session_close
      then pure ended
      else if type_raw == file_transfer_request
      then (do
        request ← try (
            map_err (λ e. violation protocol_unexpected_message)
              (cfg.codec.file_transfer_request payload))
        handle_request request t2 words)
      else pure next_round

  unfoldable pub run_command : AdminCommand → SessionAction F (Unit {0})
  unfolding write_control
  run_command (toggle_permission toggled_bit grant) = do
    let update = build_permission_toggle cfg.granted_permissions toggled_bit grant
    modify (λ s. record s { permission_sm = apply_update s.permission_sm update })
    write_control n (permission_update update)
  run_command send_clipboard = do
    s ← get
    if_err (check_gate s.permission_sm clip_read) (λ reason. pure tt) (note spawned_announce)

  -- The loop over the commands that are drained.
  unfoldable pub run_commands : List AdminCommand → SessionAction F (Unit {0})
  unfolding run_command
  run_commands [] = pure tt
  run_commands (command ∷ commands) = do run_command command; run_commands commands

  -- The frame of a tick, where the source is the synthetic one.
  unfoldable pub send_synthetic : SessionAction F Flow
  unfolding next_frame send_next
  send_synthetic = do frame ← next_frame n; let_some frame (pure next_round) (send_next n)

  -- The arm of the frame tick.
  unfoldable pub tick_frame : List AdminCommand → SessionAction F Flow
  unfolding run_commands send_synthetic
  tick_frame commands = do
    run_commands commands
    s ← get
    if not (is_granted s.permission_sm view)
        then pure next_round
        else if not cfg.is_synthetic
        then pure next_round
        else send_synthetic
