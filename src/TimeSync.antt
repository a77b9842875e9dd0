-- ===== src/TimeSync.antt =====
-- src/timesync.rs: offset and round trip time from four timestamps, and the choice among rounds.
-- The timestamps are `u64`; the differences are taken on `i64`, where they wrap around.
pub mod Accuracy
pub mod Best
use sardp.Base.{ℕ, Option, none, some, List, [], ◌∷◌, ltb, if◌then◌else◌}
use sardp.Base.Int.{ℤ, as_i64, add_i64, sub_i64, half, clamp_to_ℕ}

pub record TimeSyncResult : Type 0 where
  pub offset_us : ℤ
  pub rtt_us : ℕ

unfoldable pub compute : ℕ → ℕ → ℕ → ℕ → TimeSyncResult
compute t1 t2 t3 t4 = record {
  offset_us = half (add_i64 (sub_i64 (as_i64 t2) (as_i64 t1)) (sub_i64 (as_i64 t3) (as_i64 t4)));
  rtt_us = clamp_to_ℕ (sub_i64 (sub_i64 (as_i64 t4) (as_i64 t1)) (sub_i64 (as_i64 t3) (as_i64 t2)));
}

unfoldable pub to_responder_clock : ℕ → ℤ → ℕ
to_responder_clock local_ts offset_us = clamp_to_ℕ (add_i64 (as_i64 local_ts) offset_us)

-- The closure of the `fold`.
abbrev better : Option TimeSyncResult → TimeSyncResult → TimeSyncResult
better none r = r
better (some b) r = if ltb b.rtt_us r.rtt_us then b else r

unfoldable pub fold_best : Option TimeSyncResult → List TimeSyncResult → Option TimeSyncResult
fold_best best [] = best
fold_best best (r ∷ rounds) = fold_best (some (better best r)) rounds

unfoldable pub best_of : List TimeSyncResult → Option TimeSyncResult
best_of rounds = fold_best none rounds
