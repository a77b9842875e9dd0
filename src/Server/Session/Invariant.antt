-- ===== src/Server/Session/Invariant.antt =====
-- What holds of the loop's state before and after each round.
pub mod Frames
pub mod Feedback
pub mod Gates
pub mod Streams
pub mod Rounds
use sardp.Base.{ℕ, ◌+◌, ◌%◌, ◌^◌, ◌≡◌, sym, ◌∙◌, subst, true, Option, none, some, List, [], ◌∷◌}
use sardp.Permission.PermissionSet.{view, clip_read, clip_write, audio_playback, audio_capture}
use sardp.Permission.PermissionSm
use sardp.Permission.PermissionSm.{PermissionSm, is_granted, apply_update}
use sardp.Files.Transfer.{required_permission_bit}
use sardp.Video.VideoChannel.{VideoChannel}
use sardp.Video.VideoChannel.Sync.{IsInSync, IsSending}
use sardp.Server.Injection.{InputInjection}
use sardp.Server.Injection.Balanced.{Reach}
use sardp.Server.Messages.{permission_update}
use sardp.Server.Session.{
  Sent, control, opened_generation, reset_video, video_frame, opened_audio, audio_frame,
  accepted_capture, stopped_stream, spawned_transfer, spawned_announce, spawned_request,
  SessionState,
}

-- The permissions after the updates that the client was sent.
abbrev pub replay : ℕ → List Sent → PermissionSm
replay granted [] = PermissionSm.new granted
replay granted (control (permission_update u) ∷ older) = apply_update (replay granted older) u
replay granted (_ ∷ older) = replay granted older

-- The permission that an entry stands under.
abbrev pub required_bit : Sent → Option ℕ
required_bit (video_frame g f x) = some view
required_bit opened_audio = some audio_playback
required_bit (audio_frame k) = some audio_playback
required_bit accepted_capture = some audio_capture
required_bit (spawned_transfer h d) = some (required_permission_bit d)
required_bit spawned_announce = some clip_read
required_bit (spawned_request r) = some clip_write
required_bit _ = none

abbrev pub IsCoveredBy : PermissionSm → Option ℕ → Type 0
IsCoveredBy sm none = Unit {0}
IsCoveredBy sm (some b) = is_granted sm b ≡ true

-- Each entry was granted by the permissions at its time.
abbrev pub AllCovered : ℕ → List Sent → Type 0
AllCovered granted [] = Unit {0}
AllCovered granted (x ∷ older) =
    IsCoveredBy (replay granted older) (required_bit x) × AllCovered granted older

-- The generation that is open, and the number of its next frame.
abbrev pub expected : ℕ → List Sent → ℕ × ℕ
expected start [] = (start, 1)
expected start (opened_generation g c x ∷ older) = (g, 1)
expected start (video_frame g f x ∷ older) = (g, (f + 1) % 2 ^ 64)
expected start (_ ∷ older) = expected start older

-- Generations are opened one after another, and the frames of each are numbered from 1 without a
-- gap: the first frame, 0, is the one that the instance is opened with.
abbrev pub InSequence : ℕ → List Sent → Type 0
InSequence start [] = Unit {0}
InSequence start (opened_generation g c x ∷ older) =
    (g ≡ ((expected start older).0 + 1) % 2 ^ 64) × InSequence start older
InSequence start (video_frame g f x ∷ older) =
    ((g, f) ≡ expected start older) × InSequence start older
InSequence start (_ ∷ older) = InSequence start older

module _ (granted start : ℕ) where
  pub record IsSoundAt (sm : PermissionSm) (sent : List Sent) (injection : InputInjection)
      : Type 0 where
    pub mirrored : sm ≡ replay granted sent
    pub covered : AllCovered granted sent
    pub in_sequence : InSequence start sent
    pub balanced : Reach injection

  -- What holds even of the state that an error leaves.
  abbrev pub IsSound : SessionState → Type 0
  IsSound s = IsSoundAt s.permission_sm s.sent s.input_injection

  pub record IsCurrentAt (sent : List Sent) (v : VideoChannel) (frame_id : ℕ) : Type 0 where
    pub counted : (v.generation, frame_id) ≡ expected start sent
    pub in_sync : IsInSync v
    pub sending : IsSending v

  -- What holds between two rounds.
  abbrev pub IsReady : SessionState → Type 0
  IsReady s = IsSound s × IsCurrentAt s.sent s.video_channel s.frame_id

  -- An entry that is no update, and is covered.
  pub log-IsSound :
      (s : SessionState) (x : Sent)
      → replay granted (x ∷ s.sent) ≡ replay granted s.sent
      → IsCoveredBy s.permission_sm (required_bit x)
      → InSequence start (x ∷ s.sent)
      → IsSound s
      → IsSound (record s { sent = x ∷ s.sent })
  log-IsSound s x same allowed next h = record {
    mirrored = h.mirrored ∙ sym same;
    covered = (subst (λ sm. IsCoveredBy sm (required_bit x)) h.mirrored allowed, h.covered);
    in_sequence = next;
    balanced = h.balanced;
  }
