-- ===== src/Server/Session/Invariant/Gates.antt =====
-- The arms of the control stream, of the ticks and of the client's streams keep the invariant.
use sardp.Base.{ℕ, ◌≡◌, refl, sym, ap, ◌∙◌, subst, true, not, List, [], ◌∷◌, ok, arith, ◌==◌}
use sardp.Base.Action.{Ends, returns, bind-Ends, if-Ends, try-Ends, let_some-Ends, if_err-Ends}
use sardp.Session.ReasonCode.{ReasonCode}
use sardp.Permission.PermissionSet.{view, clip_read}
use sardp.Permission.PermissionSm.{
  PermissionSm, is_granted, check_gate, apply_update, build_permission_toggle,
}
use sardp.Permission.AdminCommand.{AdminCommand, toggle_permission, send_clipboard}
use sardp.Files.HandleStore.{Issued, refused, drawing, issued}
use sardp.Files.Transfer.{required_permission_bit}
use sardp.Server.Foreign.{Foreign}
use sardp.Server.ConnError.{ConnError}
use sardp.Server.Messages.{
  FileTransferRequest, ControlMessage, time_sync_request, session_close, file_transfer_request,
  permission_update, time_sync_response, file_transfer_accept, file_transfer_reject, keep_alive,
  closes_session,
}
use sardp.Server.Session.{
  Sent, Network, SessionConfig, SessionState, next_round, ended, still_drawing, control,
  spawned_transfer, spawned_announce, write_control,
}
use sardp.Server.Session.Control.{
  reject, issue_handle, answer_issued, handle_request, handle_control, run_command, run_commands,
  send_synthetic, tick_frame,
}
use sardp.Server.Session.Invariant.{
  replay, required_bit, IsCoveredBy, expected, InSequence, IsSoundAt, IsReady, IsCurrentAt,
  log-IsSound,
}
use sardp.Server.Session.Invariant.Frames.{Left, Ready, hand_over-Ends, next_frame-Ends}
use sardp.Server.Session.Invariant.Feedback.{send_next-Ends}

gate_open : (sm : PermissionSm) (b : ℕ) → check_gate sm b ≡ ok tt → is_granted sm b ≡ true
unfolding check_gate
gate_open sm b h = ground arith

-- What the loop writes besides an update.
abbrev IsPlain : ControlMessage → Type 0
IsPlain (permission_update u) = ⊥
IsPlain _ = Unit {0}

module _ (granted start : ℕ) where
  -- An entry that concerns no frame and no update, and is covered.
  pub log-IsReady :
      (s : SessionState) (x : Sent)
      → replay granted (x ∷ s.sent) ≡ replay granted s.sent
      → expected start (x ∷ s.sent) ≡ expected start s.sent
      → (InSequence start s.sent → InSequence start (x ∷ s.sent))
      → IsCoveredBy s.permission_sm (required_bit x)
      → IsReady granted start s
      → IsReady granted start (record s { sent = x ∷ s.sent })
  log-IsReady s x same next sequence allowed (sound, current) = (
    log-IsSound granted start s x same allowed (sequence sound.in_sequence) sound,
    record {
      counted = current.counted ∙ sym next;
      in_sync = current.in_sync;
      sending = current.sending;
    },
  )

  control-IsReady :
      (s : SessionState) (m : ControlMessage)
      → IsPlain m
      → IsReady granted start s
      → IsReady granted start (record s { sent = control m ∷ s.sent })
  control-IsReady s (permission_update u) plain h = absurd plain
  control-IsReady s (time_sync_response r) plain h = log-IsReady s _ refl refl (λ q. q) tt h
  control-IsReady s (file_transfer_reject r) plain h = log-IsReady s _ refl refl (λ q. q) tt h
  control-IsReady s (file_transfer_accept a) plain h = log-IsReady s _ refl refl (λ q. q) tt h
  control-IsReady s keep_alive plain h = log-IsReady s _ refl refl (λ q. q) tt h
  control-IsReady s (closes_session r) plain h = log-IsReady s _ refl refl (λ q. q) tt h

module _ {F : Foreign} (n : Network F) (cfg : SessionConfig F) (start : ℕ) where
  abbrev Holds : SessionState → Type 0
  Holds s = IsReady cfg.granted_permissions start s

  abbrev pub Good : {A : Type 0} → A → SessionState → Type 0
  Good = Ready n cfg.granted_permissions start

  abbrev pub Bad : ConnError F → SessionState → Type 0
  Bad = Left n cfg.granted_permissions start

  -- A message that is no update leaves the permissions as they are.
  pub write_control-Ends :
      (m : ControlMessage) (s : SessionState)
      → IsPlain m
      → Holds s
      → Ends (λ u t. Holds t × (t.permission_sm ≡ s.permission_sm)) Bad (write_control n m s)
  unfolding write_control
  write_control-Ends m s plain h =
      let written = control-IsReady cfg.granted_permissions start s m plain h in
      hand_over-Ends _ _ _ s (written, refl) (λ e. written.0)

  reject-Ends :
      (request : FileTransferRequest) (reason : ReasonCode) (s : SessionState)
      → Holds s
      → Ends Good Bad (reject n cfg request reason s)
  unfolding reject
  reject-Ends request reason s h =
      bind-Ends _ _ (write_control-Ends _ s tt h) λ u t r. returns next_round t r.0

  answer_issued-Ends :
      (request : FileTransferRequest) (answer : Issued) (s : SessionState)
      → is_granted s.permission_sm (required_permission_bit request.direction) ≡ true
      → Holds s
      → Ends Good Bad (answer_issued n cfg request answer s)
  unfolding answer_issued
  answer_issued-Ends request refused s allowed h = reject-Ends request _ s h
  answer_issued-Ends request drawing s allowed h = returns still_drawing s h
  answer_issued-Ends request (issued file_handle expiry_ts) s allowed h =
      let bit = required_permission_bit request.direction in
      bind-Ends _ _ (write_control-Ends _ s tt h) λ u t (r, same). returns next_round _ (
        log-IsReady cfg.granted_permissions start t (spawned_transfer file_handle request.direction)
          refl refl (λ q. q) (subst (λ sm. is_granted sm bit ≡ true) (sym same) allowed) r)

  handle_request-Ends :
      (request : FileTransferRequest) (now : ℕ) (words : List ℕ) (s : SessionState)
      → Holds s
      → Ends Good Bad (handle_request n cfg request now words s)
  unfolding handle_request issue_handle
  handle_request-Ends request now words s h =
      if_err-Ends (check_gate s.permission_sm (required_permission_bit request.direction)) _ _ s
        (λ reason. reject-Ends request reason s h)
        (λ open_gate. answer_issued-Ends request _ _ (gate_open s.permission_sm _ open_gate) h)

  pub handle_control-Ends :
      (type_raw : ℕ) (payload : List ℕ) (t2 t3 : ℕ) (words : List ℕ) (s : SessionState)
      → Holds s
      → Ends Good Bad (handle_control n cfg type_raw payload t2 t3 words s)
  unfolding handle_control
  handle_control-Ends type_raw payload t2 t3 words s h =
      if-Ends (type_raw == time_sync_request) _ _ s
        (λ e. bind-Ends _ _ (try-Ends {Q = λ r. Holds} {J = Bad} s _ (λ r. h) (λ e. h.0)) λ r t k.
          bind-Ends _ _ (write_control-Ends _ t tt k) λ u t' k'. returns next_round t' k'.0)
        λ e.
          if-Ends (type_raw == session_close) _ _ s (λ e. returns ended s h)
            λ e.
              if-Ends (type_raw == file_transfer_request) _ _ s
                (λ e.
                  bind-Ends _ _ (try-Ends {Q = λ r. Holds} {J = Bad} s _ (λ r. h) (λ e. h.0))
                    λ r t k. handle_request-Ends r t2 words t k)
                (λ e. returns next_round s h)

  -- A toggle, whose update is applied and sent.
  run_command-Ends :
      (command : AdminCommand) (s : SessionState)
      → Holds s
      → Ends Good Bad (run_command n cfg command s)
  unfolding run_command write_control
  run_command-Ends (toggle_permission b grant) s (sound, current) =
      let u = build_permission_toggle cfg.granted_permissions b grant in
      let sent = control (permission_update u) ∷ s.sent in
      let toggled : IsSoundAt cfg.granted_permissions start (apply_update s.permission_sm u) sent
          s.input_injection =
        record {
          mirrored = ap (λ sm. apply_update sm u) sound.mirrored;
          covered = (tt, sound.covered);
          in_sequence = sound.in_sequence;
          balanced = sound.balanced;
        } in
      let same : IsCurrentAt cfg.granted_permissions start sent s.video_channel s.frame_id =
        record {
          counted = current.counted;
          in_sync = current.in_sync;
          sending = current.sending;
        } in
      hand_over-Ends _ _ _ _ (toggled, same) (λ e. toggled)
  run_command-Ends send_clipboard s h =
      if_err-Ends (check_gate s.permission_sm clip_read) _ _ s (λ reason. returns tt s h)
        (λ open_gate. returns tt _ (
          log-IsReady cfg.granted_permissions start s spawned_announce refl refl (λ q. q)
            (gate_open s.permission_sm clip_read open_gate) h))

  run_commands-Ends :
      (commands : List AdminCommand) (s : SessionState)
      → Holds s
      → Ends Good Bad (run_commands n cfg commands s)
  unfolding run_commands
  run_commands-Ends [] s h = returns tt s h
  run_commands-Ends (command ∷ commands) s h =
      bind-Ends _ _ (run_command-Ends command s h) λ u t r. run_commands-Ends commands t r

  send_synthetic-Ends :
      (s : SessionState)
      → is_granted s.permission_sm view ≡ true
      → Holds s
      → Ends Good Bad (send_synthetic n cfg s)
  unfolding send_synthetic
  send_synthetic-Ends s allowed h =
      bind-Ends _ _
        (next_frame-Ends n (λ t. Holds t × (is_granted t.permission_sm view ≡ true)) Bad
          (λ e t r. r.0.0) (λ t k r. r) s (h, allowed))
        λ frame t (r, granted).
          let_some-Ends frame _ _ t (returns next_round t r)
            (λ f. send_next-Ends n cfg.granted_permissions start f t granted r)

  pub tick_frame-Ends :
      (commands : List AdminCommand) (s : SessionState)
      → Holds s
      → Ends Good Bad (tick_frame n cfg commands s)
  unfolding tick_frame
  tick_frame-Ends commands s h = bind-Ends _ _ (run_commands-Ends commands s h) λ u t r.
      if-Ends (not (is_granted t.permission_sm view)) _ _ t (λ e. returns next_round t r)
        λ e.
          if-Ends (not cfg.is_synthetic) _ _ t (λ e. returns next_round t r)
            (λ other. send_synthetic-Ends t (ground arith) r)
