-- ===== src/Server/Session/Reopening.antt =====
-- What a request for a key frame leads to.
use sardp.Base.{
  ℕ, zero, suc, ◌+◌, ◌%◌, ◌^◌, ◌<◌, ◌≡◌, refl, ap, ◌∙◌, true, false, some, ◌∷◌, Result, ok, err,
  arith, length, map_err,
}
use sardp.Base.Action.{continue_with, ◌>>◌, pure}
use sardp.Session.Messages.{KeyframeRequest}
use sardp.Video.VideoChannel.{
  VideoChannel, reopen, on_keyframe_request, prepare_reopen, mark_instance_streaming,
}
use sardp.Video.VideoChannel.Reopen.{reopen_streams}
use sardp.Server.Foreign.{Foreign}
use sardp.Server.ConnError.{ConnError, VideoError, video, violation}
use sardp.Server.Messages.{keyframe}
use sardp.Server.Session.{
  SourcedFrame, Network, SessionState, Flow, next_round, in_time, opened_generation, reset_video,
  hand_over, on_channel,
}
use sardp.Server.Session.Video.{
  max_frames_to_skip_for_idr, next_frame, skip_to_idr, next_idr_frame, open_generation,
  open_in_time, reopen_video_generation, reopen_and_restart, follow_keyframe, handle_feedback,
}

generation-prepare_reopen : (v : VideoChannel) → (prepare_reopen v).1 ≡ (v.generation + 1) % 2 ^ 64
unfolding prepare_reopen
generation-prepare_reopen v = refl

mark_ok : (v : VideoChannel) → (mark_instance_streaming (prepare_reopen v).0).1 ≡ ok tt
mark_ok v = ap (λ p. p.1) (reopen_streams v)

module _ {F : Foreign} (n : Network F) where
  -- The next frame of the source that is a key frame, behind `skipped` others.
  pub record IsNextIdr (taken skipped : ℕ) (idr : SourcedFrame) : Type 0 where
    pub passed_over :
        (k : ℕ)
        → k < skipped
        → (f : SourcedFrame) × (n.next_frame (taken + k) ≡ ok (some f)) × (f.is_idr ≡ false)
    pub found : n.next_frame (taken + skipped) ≡ ok (some idr)
    pub is_key : idr.is_idr ≡ true

  one_later :
      (taken skipped : ℕ) (idr : SourcedFrame)
      → IsNextIdr taken (suc skipped) idr
      → IsNextIdr (taken + 1) skipped idr
  one_later taken skipped idr h = record {
    passed_over = λ k b.
        let (f, frame, other) = h.passed_over (suc k) (omega arith) in
        (f, ap n.next_frame (omega arith) ∙ frame, other);
    found = ap n.next_frame (omega arith) ∙ h.found;
    is_key = h.is_key;
  }

  skip_to_idr_lem :
      (tries skipped : ℕ) (s : SessionState) (idr : SourcedFrame)
      → skipped < tries
      → IsNextIdr s.frames_taken skipped idr
      → skip_to_idr n tries s ≡ (record s { frames_taken = s.frames_taken + suc skipped }, ok idr)
  unfolding skip_to_idr next_frame
  skip_to_idr_lem zero skipped s idr bound h = ground arith
  skip_to_idr_lem (suc tries) zero s idr bound h =
      let frame : n.next_frame s.frames_taken ≡ ok (some idr) =
        ap n.next_frame (omega arith) ∙ h.found in
      ground (arith, frame, h.is_key)
  skip_to_idr_lem (suc tries) (suc skipped) s idr bound h =
      let (f, found, other) = h.passed_over 0 (omega arith) in
      let frame : n.next_frame s.frames_taken ≡ ok (some f) =
        ap n.next_frame (omega arith) ∙ found in
      let t = record s { frames_taken = s.frames_taken + 1 } in
      let later =
        skip_to_idr_lem tries skipped t idr (omega arith)
          (one_later s.frames_taken skipped idr h) in
      rw (frame, other) (later ∙ ap (λ k. (record s { frames_taken = k }, ok idr)) (omega arith))

  module _ (s : SessionState) (idr : SourcedFrame) (skipped : ℕ)
      (few : skipped < max_frames_to_skip_for_idr)
      (next : IsNextIdr s.frames_taken skipped idr) where
    open_generation_lem :
        (g c : ℕ)
        → open_generation n g c s ≡ (
          record s {
            frames_taken = s.frames_taken + suc skipped;
            sent = opened_generation g c idr ∷ s.sent;
          },
          map_err video (n.instance_opened (length s.sent)),
        )
    unfolding open_generation hand_over next_idr_frame
    open_generation_lem g c =
        ap (λ p. continue_with p (λ f. hand_over (opened_generation g c f) video n.instance_opened))
          (skip_to_idr_lem max_frames_to_skip_for_idr skipped s idr few next)

  -- What the round gives, and the number of the next frame, once the transport has answered.
  abbrev round_after : Result (VideoError F) (Unit {0}) → Result (ConnError F) Flow
  round_after (ok u) = ok next_round
  round_after (err e) = err (video e)

  abbrev frame_id_after : ℕ → Result (VideoError F) (Unit {0}) → ℕ
  frame_id_after frame_id (ok u) = 1
  frame_id_after frame_id (err e) = frame_id

  abbrev channel_after : VideoChannel → Result (VideoError F) (Unit {0}) → VideoChannel
  channel_after v (ok u) = (mark_instance_streaming v).0
  channel_after v (err e) = v

  mark_after :
      (u : SessionState) (v : VideoChannel)
      → u.video_channel ≡ (prepare_reopen v).0
      → (opened : Result (VideoError F) (Unit {0}))
      → continue_with (u, map_err video opened) (λ x. on_channel {F = F} mark_instance_streaming)
        ≡ (
          record u { video_channel = channel_after (prepare_reopen v).0 opened },
          map_err video opened,
        )
  mark_after u v same (ok x) =
      ap
        (λ c. (
          record u { video_channel = (mark_instance_streaming c).0 },
          map_err {F = ConnError F} (λ e. violation e.reason) (mark_instance_streaming c).1,
        ))
        same
      ∙ ap
          (λ r. (
            record u { video_channel = (mark_instance_streaming (prepare_reopen v).0).0 },
            map_err {F = ConnError F} (λ e. violation e.reason) r,
          ))
          (mark_ok v)
  mark_after u v same (err e) = ap (λ c. (record u { video_channel = c }, err (video e))) same

  module _ (s : SessionState) (idr : SourcedFrame) (skipped : ℕ)
      (timed : n.configuring s.frames_taken ≡ in_time) (few : skipped < max_frames_to_skip_for_idr)
      (next : IsNextIdr s.frames_taken skipped idr) where
    reopen_video_generation_lem :
        (opened : Result (VideoError F) (Unit {0}))
        → n.instance_opened (suc (length s.sent)) ≡ opened
        → reopen_video_generation n s ≡ (
          record s {
            video_channel = channel_after (prepare_reopen s.video_channel).0 opened;
            frames_taken = s.frames_taken + suc skipped;
            sent =
                opened_generation (prepare_reopen s.video_channel).1 1 idr ∷ reset_video ∷ s.sent;
          },
          map_err video opened,
        )
    unfolding reopen_video_generation open_in_time
    reopen_video_generation_lem opened taken =
        let t = record s {
          video_channel = (prepare_reopen s.video_channel).0;
          sent = reset_video ∷ s.sent;
        } in
        let g = (prepare_reopen s.video_channel).1 in
        let u = record t {
          frames_taken = s.frames_taken + suc skipped;
          sent = opened_generation g 1 idr ∷ t.sent;
        } in
        ap
          (λ limit.
            continue_with (open_in_time n limit g 1 t) (λ u. on_channel mark_instance_streaming))
          timed
        ∙ ap (λ p. continue_with p (λ u. on_channel mark_instance_streaming))
            (open_generation_lem t idr skipped few next g 1)
        ∙ ap (λ r. continue_with (u, map_err video r) (λ x. on_channel mark_instance_streaming))
            taken
        ∙ mark_after u s.video_channel refl opened

    reopen_and_restart_lem :
        (opened : Result (VideoError F) (Unit {0}))
        → n.instance_opened (suc (length s.sent)) ≡ opened
        → (reopen_and_restart n >> pure next_round) s ≡ (
          record s {
            video_channel = channel_after (prepare_reopen s.video_channel).0 opened;
            frame_id = frame_id_after s.frame_id opened;
            frames_taken = s.frames_taken + suc skipped;
            sent =
                opened_generation (prepare_reopen s.video_channel).1 1 idr ∷ reset_video ∷ s.sent;
          },
          round_after opened,
        )
    unfolding reopen_and_restart
    reopen_and_restart_lem (ok u) taken = rw (reopen_video_generation_lem (ok u) taken) refl
    reopen_and_restart_lem (err e) taken = rw (reopen_video_generation_lem (err e) taken) refl

  -- A request that is honored, where a key frame is among the next 120 frames of the source and the
  -- instance is opened in time: the old stream is reset, the frames before that key frame are passed
  -- over, and the next generation is opened with it, whatever the permissions are. If the transport
  -- takes the instance, it streams and its next frame is number 1; its error ends the session.
  pub keyframe_opens_next :
      (s : SessionState) (now : ℕ) (r : KeyframeRequest) (idr : SourcedFrame) (skipped : ℕ)
      → (on_keyframe_request s.video_channel now r).1 ≡ reopen
      → n.configuring s.frames_taken ≡ in_time
      → skipped < 120
      → IsNextIdr s.frames_taken skipped idr
      → let honored = (on_keyframe_request s.video_channel now r).0 in
        let opened = n.instance_opened (suc (length s.sent)) in
        let (left, result) = handle_feedback n now (keyframe r) s in
        (result ≡ round_after opened)
        × (left.sent
            ≡ opened_generation ((honored.generation + 1) % 2 ^ 64) 1 idr ∷ reset_video ∷ s.sent)
        × (left.video_channel ≡ channel_after (prepare_reopen honored).0 opened)
        × (left.permission_sm ≡ s.permission_sm)
        × (left.frame_id ≡ frame_id_after s.frame_id opened)
        × (left.frames_taken ≡ s.frames_taken + suc skipped)
  unfolding handle_feedback follow_keyframe
  keyframe_opens_next s now r idr skipped honored timed few next =
      let t = record s { video_channel = (on_keyframe_request s.video_channel now r).0 } in
      let sent = λ (g : ℕ). opened_generation g 1 idr ∷ reset_video ∷ s.sent in
      let bumped = ap sent (generation-prepare_reopen t.video_channel) in
      rw (honored, reopen_and_restart_lem t idr skipped timed few next _ refl)
        (refl, bumped, refl, refl, refl, refl)
