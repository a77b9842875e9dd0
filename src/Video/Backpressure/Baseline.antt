-- ===== src/Video/Backpressure/Baseline.antt =====
-- The tracker against what it stands for: the least delay of the trailing window.
use sardp.Base.{
  ℕ, ◌-◌, ◌≤◌, ◌≡◌, refl, sym, ap, ◌∙◌, subst, List, [], ◌∷◌, ◌++◌, leb, leb→le, arith, inl, inr,
  Bool-cases,
}
use sardp.Video.Backpressure.{
  BaselineTracker, new, pop_back_while, evict_expired, record_sample, baseline_us,
}
use sardp.Video.Backpressure.Deque.{
  min_since, AllBefore, IsTimeOrdered, IsMonotonic, AllBefore-pop_back_while, push-IsMonotonic,
  min_since-push, pop_front-IsMonotonic, pop_front-AllBefore, min_since-pop_front, AllBefore-later,
  AllBefore-snoc, front, min_since-none,
}

-- The tracker after a history of samples, the newest first.
abbrev pub after : ℕ → List (ℕ × ℕ) → BaselineTracker
after window [] = new window
after window ((t, v) ∷ older) = record_sample (after window older) t v

-- The deque `samples`, at the time `now`, stands for the history.
record Tracks (now : ℕ) (window : ℕ) (samples history : List (ℕ × ℕ)) : Type 0 where
  monotonic : IsMonotonic samples
  before : AllBefore now samples
  agrees : (c : ℕ) → now - window ≤ c → min_since c samples ≡ min_since c history

-- The deque before the eviction: what was pushed, on what was left.
module _ (now later window value : ℕ) (samples history : List (ℕ × ℕ)) (h : now ≤ later)
    (old : AllBefore later history) (tracks : Tracks now window samples history) where
  pushed : List (ℕ × ℕ)
  pushed = pop_back_while value samples ++ (later, value) ∷ []

  pushed-AllBefore : AllBefore later pushed
  unfolding pushed
  pushed-AllBefore = AllBefore-snoc later value (pop_back_while value samples) (
      AllBefore-pop_back_while later value samples
        (AllBefore-later now later samples h tracks.before))

  pushed-IsMonotonic : IsMonotonic pushed
  unfolding pushed
  pushed-IsMonotonic =
      push-IsMonotonic later value samples tracks.monotonic
        (AllBefore-later now later samples h tracks.before)

  pushed-agrees :
      (c : ℕ) → later - window ≤ c → min_since c pushed ≡ min_since c ((later, value) ∷ history)
  unfolding pushed
  pushed-agrees c lower_c = elim (Bool-cases (leb c later)) [
    | inl e ↦ ground (
      arith,
      min_since-push c later value samples (leb→le c later e),
      tracks.agrees c (omega arith),
    )
    | inr e ↦
        min_since-none c later pushed (ground arith) pushed-AllBefore
        ∙ sym (min_since-none c later ((later, value) ∷ history) (ground arith) (omega arith, old))
  ]

  record_sample-Tracks :
      Tracks later window
        (record_sample (record { window_us = window; samples = samples }) later value).samples
        ((later, value) ∷ history)
  unfolding record_sample evict_expired pushed
  record_sample-Tracks = record {
    monotonic = pop_front-IsMonotonic (later - window) pushed pushed-IsMonotonic;
    before = pop_front-AllBefore later (later - window) pushed pushed-AllBefore;
    agrees = λ c lower_c.
        min_since-pop_front (later - window) c pushed lower_c ∙ pushed-agrees c lower_c;
  }

  record_sample-minimum :
      baseline_us (record_sample (record { window_us = window; samples = samples }) later value)
      ≡ min_since (later - window) ((later, value) ∷ history)
  unfolding record_sample evict_expired pushed baseline_us
  record_sample-minimum =
      front (later - window) pushed pushed-IsMonotonic
      ∙ pushed-agrees (later - window) (omega arith)

after-window : (window : ℕ) (history : List (ℕ × ℕ)) → (after window history).window_us ≡ window
unfolding new record_sample evict_expired
after-window window [] = refl
after-window window ((t, v) ∷ older) = after-window window older

after-Tracks :
    (window t v : ℕ) (older : List (ℕ × ℕ))
    → IsTimeOrdered ((t, v) ∷ older)
    → Tracks t window (after window ((t, v) ∷ older)).samples ((t, v) ∷ older)
unfolding new
after-Tracks window t v [] h =
    record_sample-Tracks 0 t window v [] [] (omega arith) tt
      (record { monotonic = tt; before = tt; agrees = λ c l. refl })
after-Tracks window t v ((u, w) ∷ older) h =
    subst
      (λ n.
        Tracks t window
          (record_sample
            (record { window_us = n; samples = (after window ((u, w) ∷ older)).samples }) t
            v).samples
          ((t, v) ∷ (u, w) ∷ older))
      (sym (after-window window ((u, w) ∷ older)))
      (record_sample-Tracks u t window v (after window ((u, w) ∷ older)).samples ((u, w) ∷ older)
        h.0.0 h.0 (after-Tracks window u w older h.1))

-- After any history of samples with a clock that does not run backwards, the baseline is the
-- least value of those in the trailing window.
pub rolling_minimum :
    (window t v : ℕ) (older : List (ℕ × ℕ))
    → IsTimeOrdered ((t, v) ∷ older)
    → baseline_us (after window ((t, v) ∷ older)) ≡ min_since (t - window) ((t, v) ∷ older)
unfolding new
rolling_minimum window t v [] h =
    record_sample-minimum 0 t window v [] [] (omega arith) tt
      (record { monotonic = tt; before = tt; agrees = λ c l. refl })
rolling_minimum window t v ((u, w) ∷ older) h =
    ap
      (λ n. baseline_us (
        record_sample (record { window_us = n; samples = (after window ((u, w) ∷ older)).samples })
          t v))
      (after-window window ((u, w) ∷ older))
    ∙ record_sample-minimum u t window v (after window ((u, w) ∷ older)).samples ((u, w) ∷ older)
        h.0.0 h.0 (after-Tracks window u w older h.1)
