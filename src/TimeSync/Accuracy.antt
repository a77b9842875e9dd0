-- ===== src/TimeSync/Accuracy.antt =====
-- How far the computed offset can be from the true one.
use sardp.Base.{ℕ, suc, ap, ◌∙◌, ◌+◌, ◌-◌, ◌*◌, ◌/◌, ◌^◌, ◌≤◌, ◌<◌, ◌≡◌, refl, arith}
use sardp.Base.Int.{
  ℤ, pos, negsuc, pos_part, neg_part, sub_ℕ, ◌+ℤ◌, ◌-ℤ◌, half, clamp_to_ℕ, as_i64, add_i64, sub_i64,
  wrap_i64_lem,
}
use sardp.TimeSync.{TimeSyncResult, compute, to_responder_clock}

-- The parts of a difference and of a half.
pos_part-sub : (a b : ℕ) → pos_part (sub_ℕ a b) ≡ a - b
pos_part-sub a b = ground arith

neg_part-sub : (a b : ℕ) → neg_part (sub_ℕ a b) ≡ b - a
neg_part-sub a b = ground arith

pos_part-half : (z : ℤ) → pos_part (half z) ≡ pos_part z / 2
unfolding half
pos_part-half (pos n) = refl
pos_part-half (negsuc n) = pos_part-sub 0 (suc n / 2) ∙ omega arith

neg_part-half : (z : ℤ) → neg_part (half z) ≡ neg_part z / 2
unfolding half
neg_part-half (pos n) = omega arith
neg_part-half (negsuc n) = neg_part-sub 0 (suc n / 2) ∙ omega arith

-- The result of the same operations on integers that do not overflow.
abbrev unbounded : ℕ → ℕ → ℕ → ℕ → TimeSyncResult
unbounded t1 t2 t3 t4 = record {
  offset_us = half ((pos t2 -ℤ pos t1) +ℤ (pos t3 -ℤ pos t4));
  rtt_us = clamp_to_ℕ ((pos t4 -ℤ pos t1) -ℤ (pos t3 -ℤ pos t2));
}

-- An integer whose size is below the bound, whatever its sign.
abbrev IsWithin : ℕ → ℤ → Type 0
IsWithin bound z = (pos_part z < bound) × (neg_part z < bound)

as_i64_lem : (t : ℕ) → t < 2 ^ 62 → as_i64 t ≡ pos t
as_i64_lem t h = ground arith

sub_i64_lem : (a b : ℕ) → a < 2 ^ 62 → b < 2 ^ 62 → sub_i64 (as_i64 a) (as_i64 b) ≡ pos a -ℤ pos b
unfolding sub_i64 ◌-ℤ◌
sub_i64_lem a b ha hb =
    rw (as_i64_lem a ha, as_i64_lem b hb)
      (wrap_i64_lem (pos a -ℤ pos b)
        (omega (arith, pos_part-sub (a + 0) (0 + b)), omega (arith, neg_part-sub (a + 0) (0 + b))))

sub-IsWithin : (a b : ℕ) → a < 2 ^ 62 → b < 2 ^ 62 → IsWithin (2 ^ 62) (pos a -ℤ pos b)
unfolding ◌-ℤ◌
sub-IsWithin a b ha hb =
    (omega (arith, pos_part-sub (a + 0) (0 + b)), omega (arith, neg_part-sub (a + 0) (0 + b)))

add_within : (x y : ℤ) → IsWithin (2 ^ 62) x → IsWithin (2 ^ 62) y → add_i64 x y ≡ x +ℤ y
unfolding add_i64 ◌+ℤ◌
add_within x y hx hy = wrap_i64_lem (x +ℤ y) (
  omega (arith, hx, hy, pos_part-sub (pos_part x + pos_part y) (neg_part x + neg_part y)),
  omega (arith, hx, hy, neg_part-sub (pos_part x + pos_part y) (neg_part x + neg_part y)),
)

sub_within : (x y : ℤ) → IsWithin (2 ^ 62) x → IsWithin (2 ^ 62) y → sub_i64 x y ≡ x -ℤ y
unfolding sub_i64 ◌-ℤ◌
sub_within x y hx hy = wrap_i64_lem (x -ℤ y) (
  omega (arith, hx, hy, pos_part-sub (pos_part x + neg_part y) (neg_part x + pos_part y)),
  omega (arith, hx, hy, neg_part-sub (pos_part x + neg_part y) (neg_part x + pos_part y)),
)

-- Below 2^62 nothing overflows.
compute-unbounded :
    (t1 t2 t3 t4 : ℕ)
    → t1 < 2 ^ 62
    → t2 < 2 ^ 62
    → t3 < 2 ^ 62
    → t4 < 2 ^ 62
    → compute t1 t2 t3 t4 ≡ unbounded t1 t2 t3 t4
unfolding compute
compute-unbounded t1 t2 t3 t4 h1 h2 h3 h4 =
    rw
      (
        sub_i64_lem t2 t1 h2 h1,
        sub_i64_lem t3 t4 h3 h4,
        sub_i64_lem t4 t1 h4 h1,
        sub_i64_lem t3 t2 h3 h2,
        add_within (pos t2 -ℤ pos t1) (pos t3 -ℤ pos t4) (sub-IsWithin t2 t1 h2 h1)
            (sub-IsWithin t3 t4 h3 h4),
        sub_within (pos t4 -ℤ pos t1) (pos t3 -ℤ pos t2) (sub-IsWithin t4 t1 h4 h1)
            (sub-IsWithin t3 t2 h3 h2),
      )
      refl

module _ (t1 t2 t3 t4 : ℕ) where
  pos_part-offset :
      pos_part (unbounded t1 t2 t3 t4).offset_us
      ≡ ((t2 - t1) + (t3 - t4) - ((t1 - t2) + (t4 - t3))) / 2
  unfolding ◌+ℤ◌ ◌-ℤ◌
  pos_part-offset =
      pos_part-half ((pos t2 -ℤ pos t1) +ℤ (pos t3 -ℤ pos t4))
      ∙ ap (λ n. n / 2)
          (pos_part-sub (pos_part (pos t2 -ℤ pos t1) + pos_part (pos t3 -ℤ pos t4))
              (neg_part (pos t2 -ℤ pos t1) + neg_part (pos t3 -ℤ pos t4))
            ∙ omega (
              arith,
              pos_part-sub (t2 + 0) (0 + t1),
              pos_part-sub (t3 + 0) (0 + t4),
              neg_part-sub (t2 + 0) (0 + t1),
              neg_part-sub (t3 + 0) (0 + t4),
            ))

  neg_part-offset :
      neg_part (unbounded t1 t2 t3 t4).offset_us
      ≡ ((t1 - t2) + (t4 - t3) - ((t2 - t1) + (t3 - t4))) / 2
  unfolding ◌+ℤ◌ ◌-ℤ◌
  neg_part-offset =
      neg_part-half ((pos t2 -ℤ pos t1) +ℤ (pos t3 -ℤ pos t4))
      ∙ ap (λ n. n / 2)
          (neg_part-sub (pos_part (pos t2 -ℤ pos t1) + pos_part (pos t3 -ℤ pos t4))
              (neg_part (pos t2 -ℤ pos t1) + neg_part (pos t3 -ℤ pos t4))
            ∙ omega (
              arith,
              pos_part-sub (t2 + 0) (0 + t1),
              pos_part-sub (t3 + 0) (0 + t4),
              neg_part-sub (t2 + 0) (0 + t1),
              neg_part-sub (t3 + 0) (0 + t4),
            ))

-- The same of the integers that do not overflow.
unbounded_accurate :
    (t1 t2 t3 t4 ahead behind there work back : ℕ)
    → t2 + behind ≡ t1 + there + ahead
    → t3 ≡ t2 + work
    → t4 ≡ t1 + there + work + back
    → let r = unbounded t1 t2 t3 t4 in
      (r.rtt_us ≡ there + back)
      × (2 * pos_part r.offset_us + 2 * behind
          ≤ 2 * ahead + 2 * neg_part r.offset_us + (there + back) + 1)
      × (2 * ahead + 2 * neg_part r.offset_us
          ≤ 2 * pos_part r.offset_us + 2 * behind + (there + back) + 1)
unfolding ◌+ℤ◌ ◌-ℤ◌
unbounded_accurate t1 t2 t3 t4 ahead behind there work back h2 h3 h4 =
    let p = pos_part-offset t1 t2 t3 t4 in
    let n = neg_part-offset t1 t2 t3 t4 in (ground arith, omega (arith, p, n), omega (arith, p, n))

-- The responder's clock is `ahead - behind` from the requester's; the request takes `there`, the
-- answer is made in `work`, and takes `back`; both clocks are below 2^62 when it arrives. Then the
-- round trip time is exact, and twice the offset that is computed is within it of twice the true
-- one, but for one more by the rounding.
pub compute_accurate :
    (t1 t2 t3 t4 ahead behind there work back : ℕ)
    → t2 + behind ≡ t1 + there + ahead
    → t3 ≡ t2 + work
    → t4 ≡ t1 + there + work + back
    → t3 < 2 ^ 62
    → t4 < 2 ^ 62
    → let r = compute t1 t2 t3 t4 in
      (r.rtt_us ≡ there + back)
      × (2 * pos_part r.offset_us + 2 * behind
          ≤ 2 * ahead + 2 * neg_part r.offset_us + (there + back) + 1)
      × (2 * ahead + 2 * neg_part r.offset_us
          ≤ 2 * pos_part r.offset_us + 2 * behind + (there + back) + 1)
compute_accurate t1 t2 t3 t4 ahead behind there work back h2 h3 h4 b3 b4 =
    rw (compute-unbounded t1 t2 t3 t4 (omega arith) (omega arith) b3 b4)
      (unbounded_accurate t1 t2 t3 t4 ahead behind there work back h2 h3 h4)

-- If both ways take the same time, the offset is the true one, and a time of the requester's clock
-- is converted to what the responder's clock showed.
symmetric_exact :
    (t1 t2 t3 t4 ahead behind way work now : ℕ)
    → t2 + behind ≡ t1 + way + ahead
    → t3 ≡ t2 + work
    → t4 ≡ t1 + way + work + way
    → t3 < 2 ^ 62
    → t4 < 2 ^ 62
    → now < 2 ^ 62
    → behind ≤ now + ahead
    → to_responder_clock now (compute t1 t2 t3 t4).offset_us + behind ≡ now + ahead
unfolding to_responder_clock ◌+ℤ◌
symmetric_exact t1 t2 t3 t4 ahead behind way work now h2 h3 h4 b3 b4 b h =
    let r = unbounded t1 t2 t3 t4 in
    let p = pos_part-offset t1 t2 t3 t4 in
    let n = neg_part-offset t1 t2 t3 t4 in
    let small : IsWithin (2 ^ 62) r.offset_us = (omega (arith, p, n), omega (arith, p, n)) in
    rw
      (
        compute-unbounded t1 t2 t3 t4 (omega arith) (omega arith) b3 b4,
        as_i64_lem now b,
        add_within (pos now) r.offset_us (omega arith, omega arith) small,
      )
      (omega (arith, p, n, pos_part-sub (now + pos_part r.offset_us) (0 + neg_part r.offset_us)))
