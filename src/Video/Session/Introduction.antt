-- ===== src/Video/Session/Introduction.antt =====
-- What the client reads of an opening.
use sardp.Base.{ℕ, ◌≡◌, refl, ap, ◌∙◌, List, [], ◌++◌, append_assoc, length, Result, ok}
use mathlib.Core.List.{flatten}
use sardp.Base.Action.{Action, try}
use sardp.Wire.StreamKind.{StreamKind}
use sardp.Wire.Prologue.RoundTrip.{opening}
use sardp.Wire.Envelope.RoundTrip.{frame}
use sardp.Wire.Reader.Chunks.{reads, read_prologue-reads, read_envelope-reads}
use sardp.Wire.Reader.Streams.{frames}
use sardp.Server.Foreign.{Foreign}
use sardp.Server.ConnError.{VideoError}
use sardp.Video.InstanceSm
use sardp.Video.InstanceSm.{
  VideoInstanceSm, configuring, streaming, on_prologue_sent, on_generation_sent,
  on_encoder_config_sent, on_first_idr_sent,
}
use sardp.Video.Messages.{
  Bodies, video_stream_generation, encoder_config, video_frame_header, video_frame_payload,
}
use sardp.Video.Session.{
  Incoming, expect, accept_prologue, accept_setup, accept_first_frame, accept_intro,
}
use sardp.Video.Session.Frames.{limit, eq_self}
use sardp.Video.Session.Opening.{
  Instance, IsOpenable, announced, first_header, generation_bytes, config_bytes, header_bytes,
  messages, configured, set_up, sending, intro_of,
}

module _ {F : Foreign} (bodies : Bodies F.cbor_error) (x : Instance) where
  abbrev pub incoming :
      VideoInstanceSm → List (List ℕ) → List (Result F.read_error (List ℕ)) → List ℕ → Incoming F
  incoming sm chunks tail buf = record {
    sm = sm;
    reader = record { recv = reads chunks tail; buf = buf };
  }

  -- An action on the client's side takes these bytes to that result, and leaves the rest.
  abbrev Gives :
      {A : Type 0}
      → Action (Incoming F) (VideoError F) A
      → VideoInstanceSm
      → VideoInstanceSm
      → A
      → List ℕ
      → List ℕ
      → Type 0
  Gives m before after a bytes rest =
      (chunks : List (List ℕ)) (tail : List (Result F.read_error (List ℕ))) (buf : List ℕ)
      → buf ++ flatten chunks ≡ bytes
      → (later : List (List ℕ)) × (kept : List ℕ) × (m (incoming before chunks tail buf)
          ≡ (incoming after later tail kept, ok a))
        × (kept ++ flatten later ≡ rest)

  accept_prologue-Gives :
      (rest : List ℕ)
      → IsOpenable bodies x
      → Gives
          (accept_prologue {F = F})
          InstanceSm.new
          configured
          x.monitor_id
          (opening StreamKind.video 1 x.monitor_id ++ rest)
          rest
  unfolding accept_prologue InstanceSm.new on_prologue_sent
  accept_prologue-Gives rest h chunks tail buf e =
      let (later, kept, got, left) =
        read_prologue-reads StreamKind.video 1 x.monitor_id h.monitor_fits chunks tail buf rest e in
      (later, kept, rw got refl, left)

  accept_setup-Gives :
      (rest : List ℕ)
      → IsOpenable bodies x
      → Gives
          (accept_setup bodies)
          configured
          set_up
          (announced x, x.config)
          (frame video_stream_generation (generation_bytes bodies x)
            ++ (frame encoder_config (config_bytes bodies x) ++ rest))
          rest
  unfolding accept_setup expect try on_generation_sent on_encoder_config_sent
  accept_setup-Gives rest h chunks tail buf e =
      let (mid, kept, first, left) =
        read_envelope-reads video_stream_generation limit (generation_bytes bodies x)
          h.generation_fits chunks tail buf (frame encoder_config (config_bytes bodies x) ++ rest)
          e in
      let (later, kept', second, left') =
        read_envelope-reads encoder_config limit (config_bytes bodies x) h.config_fits mid tail kept
          rest left in
      (later, kept', rw (first, h.generation_decoded, second, h.config_decoded) refl, left')

  accept_first_frame-Gives :
      (rest : List ℕ)
      → IsOpenable bodies x
      → Gives
          (accept_first_frame bodies)
          set_up
          sending
          (first_header x, x.payload)
          (frame video_frame_header (header_bytes bodies x)
            ++ (frame video_frame_payload x.payload ++ rest))
          rest
  unfolding accept_first_frame expect try on_first_idr_sent
  accept_first_frame-Gives rest h chunks tail buf e =
      let (mid, kept, first, left) =
        read_envelope-reads video_frame_header limit (header_bytes bodies x) h.header_fits chunks
          tail buf (frame video_frame_payload x.payload ++ rest) e in
      let (later, kept', second, left') =
        read_envelope-reads video_frame_payload limit x.payload h.payload_fits mid tail kept rest
          left in
      (later, kept', rw (first, h.header_decoded, second, eq_self (length x.payload)) refl, left')

  -- The introduction that was written is read, and the bytes behind it are left.
  pub accept_intro-reads :
      (chunks : List (List ℕ)) (tail : List (Result F.read_error (List ℕ))) (rest : List ℕ)
      → IsOpenable bodies x
      → flatten chunks
        ≡ opening StreamKind.video 1 x.monitor_id ++ (frames (messages bodies x) ++ rest)
      → (later : List (List ℕ)) × (kept : List ℕ) × (accept_intro {F = F} bodies
            (record { sm = InstanceSm.new; reader = record { recv = reads chunks tail; buf = [] } })
          ≡ (
            record { sm = sending; reader = record { recv = reads later tail; buf = kept } },
            ok (intro_of x),
          ))
        × (kept ++ flatten later ≡ rest)
  unfolding accept_intro
  accept_intro-reads chunks tail rest h e =
      let f1 = frame video_stream_generation (generation_bytes bodies x) in
      let f2 = frame encoder_config (config_bytes bodies x) in
      let f3 = frame video_frame_header (header_bytes bodies x) in
      let f4 = frame video_frame_payload x.payload in
      let shape : frames (messages bodies x) ++ rest ≡ f1 ++ (f2 ++ (f3 ++ (f4 ++ rest))) =
        rw (append_assoc f1, append_assoc f2, append_assoc f3, append_assoc f4) in
      let (c, k, opened, left) =
        accept_prologue-Gives (f1 ++ (f2 ++ (f3 ++ (f4 ++ rest)))) h chunks tail []
          (e ∙ ap (λ (y : List ℕ). opening StreamKind.video 1 x.monitor_id ++ y) shape) in
      let (c', k', setup, left') = accept_setup-Gives (f3 ++ (f4 ++ rest)) h c tail k left in
      let (c'', k'', got, left'') = accept_first_frame-Gives rest h c' tail k' left' in
      (c'', k'', rw (opened, setup, got) refl, left'')
