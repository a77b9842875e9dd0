-- ===== src/Server/Session/Safety.antt =====
-- What a session sends, over any rounds.
use sardp.Base.{ℕ, refl, inl, List, Result}
use sardp.Base.Action.{Ends, returns, raises}
use sardp.Files.HandleStore.{FileHandleStore}
use sardp.Video.InstanceSm
use sardp.Video.VideoChannel
use sardp.Video.VideoChannel.{mark_instance_streaming}
use sardp.Video.Backpressure.{new_tracker}
use sardp.Server.Foreign.{Foreign}
use sardp.Server.Injection.{release_all}
use sardp.Server.Injection.Balanced.{start, presses, never_stuck}
use sardp.Input.Pressed.Releases.{IsKeyDown, IsButtonDown}
use sardp.Server.Session.{Network, SessionConfig}
use sardp.Server.Session.Loop.{Round, run_active_session, enter}
use sardp.Server.Session.Invariant.{IsSound, IsReady, AllCovered, InSequence}
use sardp.Server.Session.Invariant.Rounds.{run_active_session-Ends}

Ends-always :
    {S E A : Type 0} {Q : A → S → Type 0} {J : E → S → Type 0} (P : S → Type 0) (p : S × Result E A)
    → Ends Q J p
    → ((a : A) (s : S) → Q a s → P s)
    → ((e : E) (s : S) → J e s → P s)
    → P p.0
Ends-always P p (returns a s q) good bad = good a s q
Ends-always P p (raises e s j) good bad = bad e s j

module _ {F : Foreign} (n : Network F) (cfg : SessionConfig F) (generation now : ℕ)
    (handles : FileHandleStore) where
  enter-IsReady : IsReady cfg.granted_permissions generation (enter cfg generation now handles)
  unfolding enter mark_instance_streaming VideoChannel.new InstanceSm.new new_tracker
      InstanceSm.on_prologue_sent InstanceSm.on_generation_sent InstanceSm.on_encoder_config_sent
      InstanceSm.on_first_idr_sent
  enter-IsReady = (
    record { mirrored = refl; covered = tt; in_sequence = tt; balanced = start },
    record { counted = refl; in_sync = refl; sending = inl refl },
  )

  run-IsSound :
      (rounds : List (Round F))
      → IsSound cfg.granted_permissions generation
          (run_active_session n cfg rounds (enter cfg generation now handles)).0
  run-IsSound rounds =
      Ends-always (IsSound cfg.granted_permissions generation) _
        (run_active_session-Ends n cfg generation rounds (enter cfg generation now handles)
          enter-IsReady)
        (λ a s h. h.0) (λ e s h. h)

  -- Whatever the rounds bring, and however the session ends: everything that it sent or took under
  -- a permission - frames but for the one that opens an instance, sound, captured sound, file
  -- transfers, the clipboard both ways - was granted, by the permissions of the handshake and the
  -- updates that the client was sent before.
  pub only_granted_sent :
      (rounds : List (Round F))
      → AllCovered cfg.granted_permissions
          (run_active_session n cfg rounds (enter cfg generation now handles)).0.sent
  only_granted_sent rounds = (run-IsSound rounds).covered

  -- Whatever the rounds bring, and however the session ends: each instance that it opened has the
  -- generation after the one before it, starting after the session's own, and the frames on each
  -- instance are numbered 1, 2, 3 and so on without a gap, in the order in which they were sent.
  pub frames-InSequence :
      (rounds : List (Round F))
      → InSequence generation
          (run_active_session n cfg rounds (enter cfg generation now handles)).0.sent
  frames-InSequence rounds = (run-IsSound rounds).in_sequence

  -- However the session ends, the releases that follow it leave no key and no button down.
  pub session_never_stuck :
      (rounds : List (Round F)) (k : ℕ)
      → let left = run_active_session n cfg rounds (enter cfg generation now handles) in
        let sink = (release_all left.0.input_injection).sink in
        (IsKeyDown k (presses sink) → ⊥) × (IsButtonDown k (presses sink) → ⊥)
  session_never_stuck rounds k = never_stuck _ k (run-IsSound rounds).balanced
