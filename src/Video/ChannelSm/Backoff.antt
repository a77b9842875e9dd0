-- ===== src/Video/ChannelSm/Backoff.antt =====
-- The waits of one recovery, and focus.
use sardp.Base.{
  ℕ, zero, suc, ◌+◌, ◌*◌, ◌^◌, ◌≤◌, ◌<◌, min, ◌≡◌, ◌↔◌, refl, ap, ◌∙◌, true, List, [], ◌∷◌, length,
  get_or, arith,
}
use sardp.Base.Bits.{pow_two_suc}
use sardp.Video.ChannelSm.{
  ChannelSm, recovering, recovery_backoff_plateau_us, recovery_backoff_sequence_us,
  on_instance_streaming, on_reset, on_retry_timeout, may_retry,
}

-- The channel in the course of one recovery: an instance had streamed, it was reset, and then
-- each of the retries timed out, the newest time first.
abbrev pub episode : ChannelSm → List ℕ → ChannelSm
episode s [] = on_reset (on_instance_streaming s)
episode s (t ∷ older) = on_retry_timeout (episode s older) t

-- 1 s, doubled at each failure, but 30 s at most.
abbrev pub backoff_us : ℕ → ℕ
backoff_us failures = min (2 ^ failures) 30 * 1000000

large_power : (n : ℕ) → 32 ≤ 2 ^ suc (suc (suc (suc (suc n))))
large_power zero = omega arith
large_power (suc n) = omega (arith, large_power n, pow_two_suc (suc (suc (suc (suc (suc n))))))

delay : (n : ℕ) → get_or recovery_backoff_sequence_us n recovery_backoff_plateau_us ≡ backoff_us n
delay zero = refl
delay (suc zero) = refl
delay (suc (suc zero)) = refl
delay (suc (suc (suc zero))) = refl
delay (suc (suc (suc (suc zero)))) = refl
delay (suc (suc (suc (suc (suc zero))))) = refl
delay (suc (suc (suc (suc (suc (suc n)))))) = ground (arith, large_power (suc n))

retry_attempt-episode :
    (s : ChannelSm) (times : List ℕ)
    → length times < 2 ^ 32
    → (episode s times).retry_attempt ≡ length times
unfolding on_reset on_instance_streaming on_retry_timeout
retry_attempt-episode s [] h = refl
retry_attempt-episode s (t ∷ older) h = ground (arith, retry_attempt-episode s older (ground arith))

-- After any number of retries that timed out, the last of them at `t`, the next one may start
-- exactly from `t` and the backoff of that number on; before the first, at once. The channel
-- stays in recovery all along.
pub retries_back_off :
    (s : ChannelSm) (t now : ℕ) (older : List ℕ)
    → length older < 2 ^ 32
    → t + recovery_backoff_plateau_us < 2 ^ 64
    → (may_retry (episode s []) now ≡ true)
      × ((may_retry (episode s (t ∷ older)) now ≡ true) ↔ (t + backoff_us (length older) ≤ now))
unfolding may_retry on_reset on_instance_streaming on_retry_timeout
retries_back_off s t now older few early =
    let wait =
      get_or recovery_backoff_sequence_us (episode s older).retry_attempt
        recovery_backoff_plateau_us in
    let same : wait ≡ backoff_us (length older) =
      ap (λ n. get_or recovery_backoff_sequence_us n recovery_backoff_plateau_us)
        (retry_attempt-episode s older few)
      ∙ delay (length older) in
    (refl, (λ h. ground (arith, same), λ h. ground (arith, same)))

state-episode : (s : ChannelSm) (times : List ℕ) → (episode s times).state ≡ recovering
unfolding on_reset on_instance_streaming on_retry_timeout
state-episode s [] = refl
state-episode s (t ∷ older) = state-episode s older
