-- ===== src/Video/Session/Streaming.antt =====
-- A whole instance, from the server's writes to the client's reads.
use sardp.Base.{
  ℕ, ◌≡◌, refl, sym, ap, ◌∙◌, List, [], ◌∷◌, ◌++◌, append_assoc, append-nil, map, length, All,
  Result, ok, none,
}
use mathlib.Core.List.{flatten}
use sardp.Base.Action.{Action, ◌>>◌, continue_with}
use sardp.Wire.StreamKind.{StreamKind}
use sardp.Wire.Prologue.RoundTrip.{opening}
use sardp.Wire.Envelope.RoundTrip.{frame}
use sardp.Wire.Reader.Chunks.{reads}
use sardp.Wire.Reader.Streams.{frames}
use sardp.Server.Foreign.{Foreign}
use sardp.Server.ConnError.{VideoError}
use sardp.Video.InstanceSm
use sardp.Video.Messages.{Bodies}
use sardp.Video.Session.{Outgoing, open_video_instance, accept_intro}
use sardp.Video.Session.Frames.{
  Frame, as_sent, IsSendable, messages_of, send_all, read_all, send_all-messages, read_all-reads,
}
use sardp.Video.Session.Opening.{
  Instance, IsOpenable, delivered, unopened, sending, messages, intro_of, open_video_instance-sends,
}
use sardp.Video.Session.Introduction.{incoming, accept_intro-reads}

frames-append : (ms ns : List (ℕ × List ℕ)) → frames (ms ++ ns) ≡ frames ms ++ frames ns
frames-append [] ns = refl
frames-append (m ∷ ms) ns =
    ap (λ (x : List ℕ). frame m.0 m.1 ++ x) (frames-append ms ns)
    ∙ sym (append_assoc (frame m.0 m.1) (frames ms) (frames ns))

module _ {F : Foreign} (bodies : Bodies F.cbor_error) (x : Instance) (fs : List Frame) where
  -- What the server writes on the stream of an instance: its opening, and then these frames.
  abbrev pub write_instance : Action Outgoing (VideoError F) (Unit {0})
  write_instance =
      open_video_instance bodies (delivered {F = F}) x.monitor_id x.generation x.config_id x.config
        x.payload x.capture_ts x.encode_done_ts
      >> send_all bodies fs

  write_instance-sends : write_instance unopened ≡ (
    record {
      sm = sending;
      opened = record { kind = StreamKind.video; version = 1; context_id = x.monitor_id } ∷ [];
      sent = messages bodies x ++ messages_of bodies fs;
    },
    ok tt,
  )
  write_instance-sends =
      ap (λ p. continue_with p (λ u. send_all bodies fs)) (open_video_instance-sends bodies x)
      ∙ send_all-messages bodies fs (record {
        sm = sending;
        opened = record { kind = StreamKind.video; version = 1; context_id = x.monitor_id } ∷ [];
        sent = messages bodies x;
      })

  -- An instance that is opened and then sends frames, where the transport takes it all and every
  -- body decodes to what was encoded: the server's side ends streaming, and the client, however the
  -- transport cuts the bytes into reads, gets the introduction that was written - the monitor, the
  -- generation, the configuration and the first frame, number 0 and an IDR - is streaming too, and
  -- then reads the frames in their order, each with the length of its payload in its header, and no
  -- byte is left.
  pub accept_intro-open_video_instance :
      (chunks : List (List ℕ)) (tail : List (Result F.read_error (List ℕ)))
      → IsOpenable bodies x
      → All (IsSendable bodies) fs
      → flatten chunks
        ≡ opening StreamKind.video 1 x.monitor_id ++ frames (write_instance unopened).0.sent
      → ((write_instance unopened).1 ≡ ok tt)
        × (mid : List (List ℕ)) × (kept : List ℕ) × (accept_intro {F = F} bodies
              (incoming bodies x InstanceSm.new chunks tail [])
            ≡ (incoming bodies x sending mid tail kept, ok (intro_of x)))
        × (later : List (List ℕ)) × (kept' : List ℕ) × (read_all {F = F} bodies
              (length fs)
              (record {
                reader = record { recv = reads mid tail; buf = kept };
                pending_header = none;
              })
            ≡ (
              record {
                reader = record { recv = reads later tail; buf = kept' };
                pending_header = none;
              },
              ok (map as_sent fs),
            ))
        × (kept' ++ flatten later ≡ [])
  accept_intro-open_video_instance chunks tail open_h frames_h e =
      let rest = frames (messages_of bodies fs) in
      let (mid, kept, intro, left) = accept_intro-reads bodies x chunks tail rest open_h (
        e
        ∙ ap (λ (y : List ℕ). opening StreamKind.video 1 x.monitor_id ++ y)
            (ap (λ p. frames p.0.sent) write_instance-sends
              ∙ frames-append (messages bodies x) (messages_of bodies fs))) in
      let (later, kept', got, none_left) =
        read_all-reads bodies fs frames_h mid tail kept [] (left ∙ sym (append-nil rest)) in
      (ap (λ p. p.1) write_instance-sends, mid, kept, intro, later, kept', got, none_left)
