-- ===== src/Video/Session/Frames.antt =====
-- The frames of an instance, from the server's writes to the client's reads.
use sardp.Base.{
  ℕ, zero, suc, ◌≡◌, refl, sym, ap, ◌∙◌, ◌==◌, true, none, List, [], ◌∷◌, ◌++◌, append_assoc,
  append-nil, map, length, All, Result, ok, arith,
}
use mathlib.Core.List.{flatten}
use sardp.Base.Action.{Action, ◌>>=◌, ◌>>◌, pure, continue_with, try}
use sardp.Wire.StreamKind.{max_envelope_length, StreamKind}
use sardp.Wire.Envelope.RoundTrip.{frame}
use sardp.Wire.Reader.Chunks.{reads, IsFrame, read_envelope-reads}
use sardp.Wire.Reader.Streams.{frames}
use sardp.Server.Foreign.{Foreign}
use sardp.Server.ConnError.{VideoError}
use sardp.Video.Messages.{VideoFrameHeader, Bodies, video_frame_header, video_frame_payload}
use sardp.Video.Session.{Outgoing, send_video_frame}
use sardp.Video.Session.Reading.{
  VideoFrameReader, check_payload, header_of, take_header, read_payload, read_next_frame,
}

abbrev pub limit : ℕ
limit = max_envelope_length StreamKind.video

pub eq_self : (n : ℕ) → (n == n) ≡ true
eq_self n = ground arith

-- A frame: its header, whose length is set when it is sent, and its payload.
abbrev pub Frame : Type 0
Frame = VideoFrameHeader × List ℕ

abbrev pub as_sent : Frame → Frame
as_sent (fields, payload) = (record fields { payload_len = length payload }, payload)

module _ {D : Type 0} (bodies : Bodies D) where
  abbrev pub header_bytes : Frame → List ℕ
  header_bytes f = bodies.encode_header (as_sent f).0

  -- Its two envelopes fit the stream, and its header decodes to what was encoded.
  pub record IsSendable (f : Frame) : Type 0 where
    pub header_fits : IsFrame limit (video_frame_header, header_bytes f)
    pub payload_fits : IsFrame limit (video_frame_payload, f.1)
    pub decoded : bodies.decode_header (header_bytes f) ≡ ok (as_sent f).0

  abbrev pub messages_of : List Frame → List (ℕ × List ℕ)
  messages_of [] = []
  messages_of (f ∷ fs) =
      (video_frame_header, header_bytes f) ∷ (video_frame_payload, f.1) ∷ messages_of fs

module _ {F : Foreign} (bodies : Bodies F.cbor_error) where
  -- Frames sent one after another, and frames read one after another.
  abbrev pub send_all : List Frame → Action Outgoing (VideoError F) (Unit {0})
  send_all [] = pure tt
  send_all (f ∷ fs) = send_video_frame bodies f.0 f.1 (ok tt) (ok tt) >> send_all fs

  abbrev pub read_all : ℕ → Action (VideoFrameReader F) (VideoError F) (List Frame)
  read_all zero = pure []
  read_all (suc n) = read_next_frame bodies >>= λ f. read_all n >>= λ fs. pure (f ∷ fs)

  pub send_all-messages :
      (fs : List Frame) (s : Outgoing)
      → send_all fs s ≡ (record s { sent = s.sent ++ messages_of bodies fs }, ok tt)
  unfolding send_video_frame
  send_all-messages [] s = ap (λ sent. (record s { sent = sent }, ok tt)) (sym (append-nil s.sent))
  send_all-messages (f ∷ fs) s =
      let one : List (ℕ × List ℕ) = s.sent ++ (video_frame_header, header_bytes bodies f) ∷ [] in
      let both : List (ℕ × List ℕ) = one ++ (video_frame_payload, f.1) ∷ [] in
      send_all-messages fs (record s { sent = both })
      ∙ ap (λ sent. (record s { sent = sent }, ok tt))
          (append_assoc one ((video_frame_payload, f.1) ∷ []) (messages_of bodies fs)
            ∙ append_assoc s.sent ((video_frame_header, header_bytes bodies f) ∷ [])
                ((video_frame_payload, f.1) ∷ messages_of bodies fs))

  read_next_frame-reads :
      (f : Frame)
      → IsSendable bodies f
      → (chunks : List (List ℕ)) (tail : List (Result F.read_error (List ℕ))) (buf rest : List ℕ)
      → buf ++ flatten chunks
        ≡ frame video_frame_header (header_bytes bodies f)
          ++ (frame video_frame_payload f.1 ++ rest)
      → (later : List (List ℕ)) × (kept : List ℕ) × (read_next_frame {F = F} bodies (record {
        reader = record { recv = reads chunks tail; buf = buf };
        pending_header = none;
      })
          ≡ (
            record {
              reader = record { recv = reads later tail; buf = kept };
              pending_header = none;
            },
            ok (as_sent f),
          ))
        × (kept ++ flatten later ≡ rest)
  unfolding read_next_frame take_header read_payload header_of check_payload try
  read_next_frame-reads f h chunks tail buf rest e =
      let (mid, kept, first, left) =
        read_envelope-reads video_frame_header limit (header_bytes bodies f) h.header_fits chunks
          tail buf (frame video_frame_payload f.1 ++ rest) e in
      let (later, kept', second, left') =
        read_envelope-reads video_frame_payload limit f.1 h.payload_fits mid tail kept rest left in
      (later, kept', rw (first, h.decoded, second) (rw (eq_self (length f.1)) refl), left')

  pub read_all-reads :
      (fs : List Frame)
      → All (IsSendable bodies) fs
      → (chunks : List (List ℕ)) (tail : List (Result F.read_error (List ℕ))) (buf rest : List ℕ)
      → buf ++ flatten chunks ≡ frames (messages_of bodies fs) ++ rest
      → (later : List (List ℕ)) × (kept : List ℕ) × (read_all (length fs) (record {
        reader = record { recv = reads chunks tail; buf = buf };
        pending_header = none;
      })
          ≡ (
            record {
              reader = record { recv = reads later tail; buf = kept };
              pending_header = none;
            },
            ok (map as_sent fs),
          ))
        × (kept ++ flatten later ≡ rest)
  read_all-reads [] h chunks tail buf rest e = (chunks, buf, refl, e)
  read_all-reads (f ∷ fs) h chunks tail buf rest e =
      let header = frame video_frame_header (header_bytes bodies f) in
      let payload = frame video_frame_payload f.1 in
      let others = frames (messages_of bodies fs) in
      let (mid, kept, first, left) = read_next_frame-reads f h.0 chunks tail buf (others ++ rest) (
        e
        ∙ append_assoc header (payload ++ others) rest
        ∙ ap (λ (x : List ℕ). header ++ x) (append_assoc payload others rest)) in
      let (later, kept', second, left') = read_all-reads fs h.1 mid tail kept rest left in
      let more = λ (g : Frame). read_all (length fs) >>= λ gs. pure (g ∷ gs) in
      (
        later,
        kept',
        ap (λ p. continue_with p more) first
            ∙ ap (λ p. continue_with p (λ gs. pure (as_sent f ∷ gs))) second,
        left',
      )
