-- ===== src/Server/Session/Requests.antt =====
-- The answer to a file request.
use sardp.Base.{ℕ, ◌≤◌, ◌≡◌, refl, suc, List, ◌∷◌, ok, err, arith, length}
use sardp.Session.ReasonCode.{ReasonCode}
use sardp.Permission.PermissionSm.{check_gate}
use sardp.Files.HandleStore.{issued, try_issue, validate}
use sardp.Files.HandleStore.Binding.{issued_handle}
use sardp.Files.Transfer.{required_permission_bit}
use sardp.Server.Foreign.{Foreign}
use sardp.Server.Messages.{FileTransferRequest, file_transfer_accept, file_transfer_reject}
use sardp.Server.Session.{
  Network, SessionConfig, SessionState, next_round, control, spawned_transfer, write_control,
  hand_over,
}
use sardp.Server.Session.Control.{
  handle_request, issue_handle, answer_issued, reject, file_handle_ttl_us,
  max_concurrent_file_transfers,
}

module _ {F : Foreign} (n : Network F) (cfg : SessionConfig F) (request : FileTransferRequest)
    (now : ℕ) (words : List ℕ) (s : SessionState)
    (written : n.control_written (length s.sent) ≡ ok tt) where
  -- A request whose permission is granted and for which a handle was drawn: the handle is announced
  -- to the client, its transfer is started, and until it expires the handle is good for this
  -- session, this user, the requested direction and the declared size.
  pub request_accepted :
      (h expiry later : ℕ)
      → check_gate s.permission_sm (required_permission_bit request.direction) ≡ ok tt
      → (try_issue s.file_handles cfg.session_id cfg.user_id request.direction request.declared_size
          file_handle_ttl_us max_concurrent_file_transfers now words).1
        ≡ issued h expiry
      → later ≤ expiry
      → let (left, result) = handle_request n cfg request now words s in
        (result ≡ ok next_round)
        × (left.sent
            ≡ spawned_transfer h request.direction
              ∷ control (
                  file_transfer_accept (record {
                    request_id = request.request_id;
                    file_handle = h;
                    resolved_size = request.declared_size;
                    expiry_ts = expiry;
                  }))
              ∷ s.sent)
        × (validate left.file_handles h cfg.session_id cfg.user_id request.direction later
            ≡ ok (record {
              session_id = cfg.session_id;
              user_id = cfg.user_id;
              direction = request.direction;
              resolved_size = request.declared_size;
              expiry_ts = expiry;
            }))
  unfolding handle_request issue_handle answer_issued write_control hand_over
  request_accepted h expiry later gate drawn fresh =
      let (free, small, until, good, others) =
        issued_handle s.file_handles cfg.session_id cfg.user_id request.direction
          request.declared_size file_handle_ttl_us max_concurrent_file_transfers now words h expiry
          later (suc h) drawn fresh (ground arith) in
      rw (gate, drawn, written) (refl, refl, good)

  -- A request whose permission is not granted: it is rejected with the gate's reason, and no handle
  -- is issued.
  request_rejected :
      (reason : ReasonCode)
      → check_gate s.permission_sm (required_permission_bit request.direction) ≡ err reason
      → let (left, result) = handle_request n cfg request now words s in
        (result ≡ ok next_round)
        × (left.sent
            ≡ control
                (file_transfer_reject (record { request_id = request.request_id; reason = reason }))
              ∷ s.sent)
        × (left.file_handles ≡ s.file_handles)
  unfolding handle_request reject write_control hand_over
  request_rejected reason gate = rw (gate, written) (refl, refl, refl)
