-- ===== src/Server/Session/Invariant/Streams.antt =====
-- The arms of the desktop's frames, the sound, the client's streams, its input and its clipboard
-- keep the invariant.
use sardp.Base.{ℕ, ◌≡◌, refl, true, not, List, [], ◌∷◌, Result, ok, err, arith}
use sardp.Base.Action.{
  Ends, returns, raises, bind-Ends, if-Ends, pair-Ends, try-Ends, let_some-Ends,
}
use sardp.Permission.PermissionSet.{view, audio_playback, audio_capture, clip_write}
use sardp.Permission.PermissionSm.{is_granted}
use sardp.Wire.StreamKind.{StreamKind}
use sardp.Input.Messages.{InputMessage}
use sardp.Server.Foreign.{Foreign}
use sardp.Server.ConnError.{ConnError}
use sardp.Server.Injection.{InputInjection, handle, release_all}
use sardp.Server.Injection.Balanced.{Reach, then_handle, then_end}
use sardp.Server.Messages.{ClipboardFormats, ClipboardFormatEntry}
use sardp.Server.Session.{
  Network, SessionState, SourcedFrame, next_round, opened_audio, audio_frame, accepted_capture,
  stopped_stream, spawned_request,
}
use sardp.Server.Session.Arms.{
  CaptureConfig, send_if_granted, handle_desktop, open_playback, send_sound, tick_audio,
  accept_capture, handle_uni, inject, handle_input, request_first, handle_clipboard,
}
use sardp.Server.Session.Invariant.{IsReady}
use sardp.Server.Session.Invariant.Frames.{Left, Ready, hand_over-Ends, next_frame-Ends}
use sardp.Server.Session.Invariant.Feedback.{send_next-Ends}
use sardp.Server.Session.Invariant.Gates.{log-IsReady}

module _ {F : Foreign} (n : Network F) (granted start : ℕ) where
  abbrev Holds : SessionState → Type 0
  Holds = IsReady granted start

  abbrev Good : {A : Type 0} → A → SessionState → Type 0
  Good = Ready n granted start

  abbrev Bad : ConnError F → SessionState → Type 0
  Bad = Left n granted start

  send_if_granted-Ends :
      (frame : SourcedFrame) (s : SessionState)
      → Holds s
      → Ends Good Bad (send_if_granted n frame s)
  unfolding send_if_granted
  send_if_granted-Ends frame s h =
      if-Ends (not (is_granted s.permission_sm view)) _ _ s (λ e. returns next_round s h)
        (λ e. send_next-Ends n granted start frame s (ground arith) h)

  pub handle_desktop-Ends : (s : SessionState) → Holds s → Ends Good Bad (handle_desktop n s)
  unfolding handle_desktop
  handle_desktop-Ends s h =
      bind-Ends _ _ (next_frame-Ends n Holds Bad (λ e t r. r.0) (λ t k r. r) s h)
        λ frame t r. let_some-Ends frame _ _ t (raises _ t r.0) (λ f. send_if_granted-Ends f t r)

  send_sound-Ends :
      (s : SessionState)
      → is_granted s.permission_sm audio_playback ≡ true
      → Holds s
      → Ends Good Bad (send_sound n s)
  unfolding send_sound
  send_sound-Ends s allowed h =
      let logged =
        log-IsReady granted start s (audio_frame s.audio_sequence) refl refl (λ q. q) allowed h in
      bind-Ends _ _ (hand_over-Ends {Q = λ u. Holds} {J = Bad} _ _ _ s logged (λ e. logged.0))
        λ u t r. returns next_round _ r

  -- Sound that is granted stays granted while its stream is opened.
  open_playback-Ends :
      (s : SessionState)
      → is_granted s.permission_sm audio_playback ≡ true
      → Holds s
      → Ends
          (λ u t. (is_granted t.permission_sm audio_playback ≡ true) × Holds t)
          Bad
          (open_playback n s)
  unfolding open_playback
  open_playback-Ends s allowed h =
      let logged = log-IsReady granted start s opened_audio refl refl (λ q. q) allowed h in
      bind-Ends _ _
        (hand_over-Ends {Q = λ u t. (is_granted t.permission_sm audio_playback ≡ true) × Holds t}
          {J = Bad} _ _ _ s (allowed, logged) (λ e. logged.0))
        λ u t r. returns tt _ r

  pub tick_audio-Ends : (s : SessionState) → Holds s → Ends Good Bad (tick_audio n s)
  unfolding tick_audio
  tick_audio-Ends s h =
      if-Ends (not (is_granted s.permission_sm audio_playback)) _ _ s (λ e. returns next_round s h)
        λ e.
          let allowed : is_granted s.permission_sm audio_playback ≡ true = ground arith in
          if-Ends s.audio_open _ _ s (λ e. send_sound-Ends s allowed h)
            λ e. bind-Ends _ _ (open_playback-Ends s allowed h) λ u t r. send_sound-Ends t r.0 r.1

  accept_capture-Ends :
      (config : CaptureConfig F) (s : SessionState)
      → Holds s
      → Ends Good Bad (accept_capture config s)
  unfolding accept_capture
  accept_capture-Ends config s h =
      if-Ends (not (is_granted s.permission_sm audio_capture)) _ _ s
        (λ e.
          returns next_round _ (log-IsReady granted start s stopped_stream refl refl (λ q. q) tt h))
        λ e.
          bind-Ends _ _
            (try-Ends {Q = λ u t. (is_granted t.permission_sm audio_capture ≡ true) × Holds t}
              {J = Bad} s _ (λ u. (ground arith, h)) (λ e. h.0))
            λ u t r.
              returns next_round _
                (log-IsReady granted start t accepted_capture refl refl (λ q. q) r.0 r.1)

  pub handle_uni-Ends :
      (kind : StreamKind) (config : CaptureConfig F) (s : SessionState)
      → Holds s
      → Ends Good Bad (handle_uni kind config s)
  unfolding handle_uni
  handle_uni-Ends StreamKind.audio_capture config s h = accept_capture-Ends config s h
  handle_uni-Ends StreamKind.input config s h =
      if-Ends s.input_open _ _ s
        (λ e.
          returns next_round _ (log-IsReady granted start s stopped_stream refl refl (λ q. q) tt h))
        (λ e. returns next_round _ h)
  handle_uni-Ends _ config s h =
      returns next_round _ (log-IsReady granted start s stopped_stream refl refl (λ q. q) tt h)

  with_injection :
      (s : SessionState) (injection : InputInjection)
      → Reach injection
      → Holds s
      → Holds (record s { input_injection = injection })
  with_injection s injection reached (sound, current) = (
    record {
      mirrored = sound.mirrored;
      covered = sound.covered;
      in_sequence = sound.in_sequence;
      balanced = reached;
    },
    current,
  )

  inject-Ends :
      (m : InputMessage) (s : SessionState) → Holds s → Ends (λ u. Holds) Bad (inject {F = F} m s)
  unfolding inject
  inject-Ends m s h =
      let reached = then_handle s.input_injection m s.permission_sm h.0.balanced in
      let handled = with_injection s (handle s.input_injection m s.permission_sm).0 reached h in
      pair-Ends _ _ (λ u. handled) (λ e. handled.0)

  -- Input reaches the sink through `handle`, which keeps it balanced.
  pub handle_input-Ends :
      {E : Type 0} (now : ℕ) (message : Result E InputMessage) (s : SessionState)
      → Holds s
      → Ends Good Bad (handle_input {F = F} now message s)
  unfolding handle_input
  handle_input-Ends now (ok m) s h =
      bind-Ends _ _ (inject-Ends m (record s { last_activity = now }) h)
        λ u t r. returns next_round t r
  handle_input-Ends now (err e) s h =
      returns next_round _ (
        with_injection s (release_all s.input_injection) (then_end s.input_injection h.0.balanced)
          h)

  request_first-Ends :
      (announced : ClipboardFormats) (formats : List ClipboardFormatEntry) (s : SessionState)
      → is_granted s.permission_sm clip_write ≡ true
      → Holds s
      → Ends Good Bad (request_first {F = F} announced formats s)
  request_first-Ends announced [] s allowed h = returns next_round s h
  request_first-Ends announced (f ∷ formats) s allowed h =
      returns next_round _
        (log-IsReady granted start s (spawned_request _) refl refl (λ q. q) allowed h)

  pub handle_clipboard-Ends :
      (announced : ClipboardFormats) (s : SessionState)
      → Holds s
      → Ends Good Bad (handle_clipboard {F = F} announced s)
  unfolding handle_clipboard
  handle_clipboard-Ends announced s h =
      if-Ends (not (is_granted s.permission_sm clip_write)) _ _ s (λ e. returns next_round s h)
        (λ e. request_first-Ends announced announced.formats s (ground arith) h)
