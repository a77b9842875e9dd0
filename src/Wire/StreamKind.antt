-- ===== src/Wire/StreamKind.antt =====
-- src/stream_kind.rs: the kinds of streams, their bytes and their limits on an envelope.
use sardp.Base.{ℕ, ◌*◌, ◌≤◌, ◌<◌, ◌≡◌, ◌↔◌, Option, none, some, arith, ◌==◌, if◌then◌else◌}

pub data StreamKind : Type 0 where
  control input video feedback clipboard file audio_playback audio_capture : StreamKind

unfoldable pub from_byte : ℕ → Option StreamKind
from_byte kind =
    if kind == 0x01
    then some control
    else if kind == 0x02
    then some input
    else if kind == 0x03
    then some video
    else if kind == 0x04
    then some feedback
    else if kind == 0x05
    then some clipboard
    else if kind == 0x06
    then some file
    else if kind == 0x07
    then some audio_playback
    else if kind == 0x08
    then some audio_capture
    else none

unfoldable pub to_byte : StreamKind → ℕ
to_byte control = 0x01
to_byte input = 0x02
to_byte video = 0x03
to_byte feedback = 0x04
to_byte clipboard = 0x05
to_byte file = 0x06
to_byte audio_playback = 0x07
to_byte audio_capture = 0x08

unfoldable pub max_envelope_length : StreamKind → ℕ
max_envelope_length control = 64 * 1024
max_envelope_length input = 1024
max_envelope_length video = 8 * 1024 * 1024
max_envelope_length feedback = 4 * 1024
max_envelope_length audio_playback = 64 * 1024
max_envelope_length audio_capture = 64 * 1024
max_envelope_length clipboard = 16 * 1024 * 1024
max_envelope_length file = 1024 * 1024

-- A byte names a kind exactly when it is that kind's byte.
pub from_byte_iff : (b : ℕ) (k : StreamKind) → (from_byte b ≡ some k) ↔ (to_byte k ≡ b)
unfolding from_byte to_byte
from_byte_iff b k = (λ h. ground arith, λ h. backward k b h)
  where
    backward : (j : StreamKind) (c : ℕ) → to_byte j ≡ c → from_byte c ≡ some j
    backward control c h = ground arith
    backward _ c h = ground arith

to_byte-lt : (k : StreamKind) → (1 ≤ to_byte k) × (to_byte k < 9)
unfolding to_byte
to_byte-lt control = omega arith
to_byte-lt _ = omega arith

-- The largest payload of any stream is 16 MiB.
max_envelope_length-le : (k : StreamKind) → max_envelope_length k ≤ 16 * 1024 * 1024
unfolding max_envelope_length
max_envelope_length-le control = omega arith
max_envelope_length-le _ = omega arith
