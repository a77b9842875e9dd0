-- ===== src/TimeSync/Best.antt =====
-- The round that is trusted.
use sardp.Base.{ℕ, ◌≤◌, ◌≡◌, ◌⊎◌, refl, inl, inr, some, List, [], ◌∷◌, arith, ltb, Bool-cases}
use sardp.TimeSync.{TimeSyncResult, fold_best, best_of}

abbrev pub IsOneOf : TimeSyncResult → List TimeSyncResult → Type 0
IsOneOf r [] = ⊥
IsOneOf r (x ∷ rounds) = (r ≡ x) ⊎ IsOneOf r rounds

abbrev AllAtLeast : ℕ → List TimeSyncResult → Type 0
AllAtLeast n [] = Unit {0}
AllAtLeast n (x ∷ rounds) = (n ≤ x.rtt_us) × AllAtLeast n rounds

fold_best_least :
    (b : TimeSyncResult) (rounds : List TimeSyncResult)
    → (r : TimeSyncResult) × (fold_best (some b) rounds ≡ some r)
      × ((r ≡ b) ⊎ IsOneOf r rounds)
      × (r.rtt_us ≤ b.rtt_us)
      × AllAtLeast r.rtt_us rounds
unfolding fold_best
fold_best_least b [] = (b, refl, inl refl, ground arith, tt)
fold_best_least b (x ∷ rounds) = elim (Bool-cases (ltb b.rtt_us x.rtt_us)) [
  | inl e ↦
      let (r, found, from, less, all) = fold_best_least b rounds in
      (
        r,
        rw e found,
        elim from [ inl same ↦ inl same | inr one ↦ inr (inr one) ],
        less,
        (ground arith, all),
      )
  | inr e ↦
      let (r, found, from, less, all) = fold_best_least x rounds in
      (
        r,
        rw e found,
        elim from [ inl same ↦ inr (inl same) | inr one ↦ inr (inr one) ],
        ground arith,
        (less, all),
      )
]

-- Of one round or more, one of those with the least round trip time is chosen.
best_of_least :
    (first : TimeSyncResult) (rounds : List TimeSyncResult)
    → (r : TimeSyncResult) × (best_of (first ∷ rounds) ≡ some r)
      × IsOneOf r (first ∷ rounds)
      × AllAtLeast r.rtt_us (first ∷ rounds)
unfolding best_of fold_best
best_of_least first rounds =
    let (r, found, from, less, all) = fold_best_least first rounds in (r, found, from, (less, all))
