-- ===== src/Server/Session/Invariant/Rounds.antt =====
-- The loop keeps the invariant, and what that says of a session.
use sardp.Base.{ℕ, ◌+◌, refl, List, [], ◌∷◌, Result, leb}
use sardp.Base.Action.{Ends, returns, raises, bind-Ends, if-Ends, try-Ends}
use sardp.Session.ReasonCode.{no_reason}
use sardp.Server.Foreign.{Foreign}
use sardp.Server.ConnError.{ConnError, idle_timeout}
use sardp.Server.Messages.{keep_alive, closes_session}
use sardp.Server.Session.{
  Network, SessionConfig, SessionState, Flow, next_round, ended, still_drawing, control,
}
use sardp.Server.Session.Loop.{
  Event, control_read, keepalive_ticked, frame_ticked, desktop_ready, feedback_read, audio_ticked,
  uni_accepted, input_read, formats_accepted, Round, run_arm, run_round, go_on, run_active_session,
  idle_timeout_us,
}
use sardp.Server.Session.Invariant.{IsReady}
use sardp.Server.Session.Invariant.Frames.{Left, Ready}
use sardp.Server.Session.Invariant.Feedback.{handle_feedback-Ends}
use sardp.Server.Session.Invariant.Gates.{
  log-IsReady, write_control-Ends, handle_control-Ends, tick_frame-Ends,
}
use sardp.Server.Session.Invariant.Streams.{
  handle_desktop-Ends, tick_audio-Ends, handle_uni-Ends, handle_input-Ends, handle_clipboard-Ends,
}

module _ {F : Foreign} (n : Network F) (cfg : SessionConfig F) (start : ℕ) where
  abbrev Holds : SessionState → Type 0
  Holds = IsReady cfg.granted_permissions start

  abbrev Good : {A : Type 0} → A → SessionState → Type 0
  Good = Ready n cfg.granted_permissions start

  abbrev Bad : ConnError F → SessionState → Type 0
  Bad = Left n cfg.granted_permissions start

  run_arm-Ends :
      (now : ℕ) (event : Event F) (s : SessionState)
      → Holds s
      → Ends Good Bad (run_arm n cfg now event s)
  unfolding run_arm
  run_arm-Ends now (control_read envelope t3 words) s h =
      bind-Ends _ _ (try-Ends {Q = λ e. Holds} {J = Bad} s _ (λ e. h) (λ e. h.0)) λ e t r.
        handle_control-Ends n cfg start e.0 e.1 now t3 words (record t { last_activity = now }) r
  run_arm-Ends now keepalive_ticked s h =
      bind-Ends _ _ (write_control-Ends n cfg start keep_alive s tt h)
        λ u t r. returns next_round t r.0
  run_arm-Ends now (frame_ticked commands) s h = tick_frame-Ends n cfg start commands s h
  run_arm-Ends now desktop_ready s h = handle_desktop-Ends n cfg.granted_permissions start s h
  run_arm-Ends now (feedback_read message) s h =
      bind-Ends _ _
        (try-Ends {Q = λ e. Holds} {J = Bad} (record s { last_activity = now }) _ (λ e. h)
          (λ e. h.0))
        λ m t r. handle_feedback-Ends n cfg.granted_permissions start now m t r
  run_arm-Ends now audio_ticked s h = tick_audio-Ends n cfg.granted_permissions start s h
  run_arm-Ends now (uni_accepted kind config) s h =
      bind-Ends _ _ (try-Ends {Q = λ e. Holds} {J = Bad} s _ (λ e. h) (λ e. h.0))
        λ k t r. handle_uni-Ends n cfg.granted_permissions start k config t r
  run_arm-Ends now (input_read message) s h =
      if-Ends s.input_open _ _ s
        (λ e. handle_input-Ends n cfg.granted_permissions start now message s h)
        (λ e. returns next_round s h)
  run_arm-Ends now (formats_accepted formats) s h =
      bind-Ends _ _ (try-Ends {Q = λ e. Holds} {J = Bad} s _ (λ e. h) (λ e. h.0))
        λ f t r. handle_clipboard-Ends n cfg.granted_permissions start f t r

  run_round-Ends :
      (round : Round F) (s : SessionState) → Holds s → Ends Good Bad (run_round n cfg round s)
  unfolding run_round
  run_round-Ends round s h =
      if-Ends round.shutdown _ _ s
        (λ e. returns ended _ (
          log-IsReady cfg.granted_permissions start s (control (closes_session no_reason)) refl refl
            (λ q. q) tt h))
        λ e.
          if-Ends (leb (s.last_activity + idle_timeout_us) round.now) _ _ s
            (λ e. raises idle_timeout s h.0) (λ e. run_arm-Ends round.now round.event s h)

  go_on-Ends :
      (rest : SessionState → SessionState × Result (ConnError F) Flow) (flow : Flow)
      (t : SessionState)
      → ((u : SessionState) → Holds u → Ends Good Bad (rest u))
      → Holds t
      → Ends Good Bad (go_on n cfg rest flow t)
  go_on-Ends rest next_round t k r = k t r
  go_on-Ends rest ended t k r = returns ended t r
  go_on-Ends rest still_drawing t k r = returns still_drawing t r

  pub run_active_session-Ends :
      (rounds : List (Round F)) (s : SessionState)
      → Holds s
      → Ends Good Bad (run_active_session n cfg rounds s)
  unfolding run_active_session
  run_active_session-Ends [] s h = returns next_round s h
  run_active_session-Ends (round ∷ rounds) s h =
      bind-Ends _ _ (run_round-Ends round s h) λ flow t r.
        go_on-Ends (run_active_session n cfg rounds) flow t (run_active_session-Ends rounds) r
