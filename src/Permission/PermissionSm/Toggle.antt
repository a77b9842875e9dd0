-- ===== src/Permission/PermissionSm/Toggle.antt =====
-- The update of a toggle: one bit of the mask, and no other.
use sardp.Base.{
  ℕ, zero, suc, ◌-◌, ◌*◌, ◌/◌, ◌%◌, ◌^◌, ◌≤◌, max, ◌≡◌, ◌⊎◌, refl, ap, ◌∙◌, inl, inr, Bool, true,
  false, not, ◌==◌, if◌then◌else◌, arith, bit_and, bit_or, Bool-cases,
}
use sardp.Base.Bits.{bit_and-single, bit_or_step, pow_two_pos, pow_two_suc, div_double}
use sardp.Session.Messages.{PermissionUpdate}
use sardp.Permission.PermissionSm.{
  PermissionSm, BitState, not_granted, granted, draining, has_bit, build_permission_toggle,
  updated_state, state, apply_update, all_bits,
}
use sardp.Permission.PermissionSm.Updates.{contains, state-apply_update}

-- The bit in the place `k`.
abbrev digit : ℕ → ℕ → ℕ
digit zero a = a % 2
digit (suc k) a = digit k (a / 2)

digit_shift : (k a : ℕ) → a / 2 ^ k % 2 ≡ digit k a
digit_shift zero a = omega arith
digit_shift (suc k) a =
    ap (λ n. a / n % 2) (pow_two_suc k)
    ∙ ap (λ n. n % 2) (div_double a (2 ^ k))
    ∙ digit_shift k (a / 2)

digit-bit_or : (k a b : ℕ) → digit k (bit_or a b) ≡ max (digit k a) (digit k b)
digit-bit_or zero a b = omega (arith, bit_or_step a b)
digit-bit_or (suc k) a b = ap (digit k) half ∙ digit-bit_or k (a / 2) (b / 2)
  where
    half : bit_or a b / 2 ≡ bit_or (a / 2) (b / 2)
    half = omega (arith, bit_or_step a b)

-- `a` without its bit in the place `k`.
abbrev cleared : ℕ → ℕ → ℕ
cleared k a = a - digit k a * 2 ^ k

double : (d k : ℕ) → d * 2 ^ suc k ≡ 2 * (d * 2 ^ k)
double d k = omega (arith, ap (λ n. d * n) (pow_two_suc k))

digit_le : (k a : ℕ) → digit k a * 2 ^ k ≤ a
digit_le zero a = omega arith
digit_le (suc k) a = omega (arith, digit_le k (a / 2), double (digit k (a / 2)) k)

half-cleared : (k a : ℕ) → cleared (suc k) a / 2 ≡ cleared k (a / 2)
half-cleared k a = omega (arith, digit_le k (a / 2), double (digit k (a / 2)) k)

digit-cleared : (j k a : ℕ) → digit j (cleared k a) ≡ (if k == j then 0 else digit j a)
digit-cleared zero zero a = omega arith
digit-cleared zero (suc k) a = ground (arith, digit_le k (a / 2), double (digit k (a / 2)) k)
digit-cleared (suc j) zero a =
    let same : digit j (cleared zero a / 2) ≡ digit j (a / 2) = ap (digit j) (omega arith) in
    ground (arith, same)
digit-cleared (suc j) (suc k) a =
    let same : digit j (cleared (suc k) a / 2) ≡ digit j (cleared k (a / 2)) =
      ap (digit j) (half-cleared k a) in
    ground (arith, same, digit-cleared j k (a / 2))

digit-zero : (j : ℕ) → digit j 0 ≡ 0
digit-zero zero = refl
digit-zero (suc j) = digit-zero j

half_power : (k : ℕ) → 2 ^ suc k / 2 ≡ 2 ^ k
half_power k = omega (arith, pow_two_suc k)

digit-power : (j k : ℕ) → digit j (2 ^ k) ≡ (if k == j then 1 else 0)
digit-power zero zero = refl
digit-power zero (suc k) = ground (arith, pow_two_suc k)
digit-power (suc j) zero = ground (arith, digit-zero j)
digit-power (suc j) (suc k) =
    let same : digit j (2 ^ suc k / 2) ≡ digit j (2 ^ k) = ap (digit j) (half_power k) in
    ground (arith, same, digit-power j k)

digit_cases : (k a : ℕ) → (digit k a ≡ 0) ⊎ (digit k a ≡ 1)
digit_cases zero a = ground arith
digit_cases (suc k) a = digit_cases k (a / 2)

bit_and-digit : (mask k : ℕ) → bit_and mask (2 ^ k) ≡ digit k mask * 2 ^ k
bit_and-digit mask k = bit_and-single k mask ∙ ap (λ n. n * 2 ^ k) (digit_shift k mask)

has_bit-digit : (mask k : ℕ) → has_bit mask (2 ^ k) ≡ (digit k mask == 1)
has_bit-digit mask k = ap (λ n. not (n == 0)) (bit_and-digit mask k) ∙ (elim (digit_cases k mask) [
  | inl e ↦ rw e (ground arith)
  | inr e ↦ rw e (ground (arith, pow_two_pos k))
])

-- A toggle of the bit `k` sets it as asked, and keeps every other bit of the mask.
pub has_bit-build_permission_toggle :
    (current k j : ℕ) (grant : Bool)
    → has_bit (build_permission_toggle current (2 ^ k) grant).granted_permissions (2 ^ j)
      ≡ (if k == j then grant else has_bit current (2 ^ j))
unfolding build_permission_toggle
has_bit-build_permission_toggle current k j grant =
    let this_bit = if grant then 2 ^ k else 0 in
    ap (λ n. has_bit (bit_or this_bit (current - n)) (2 ^ j)) (bit_and-digit current k)
    ∙ has_bit-digit (bit_or this_bit (cleared k current)) j
    ∙ ap (λ n. n == 1) (digit-bit_or j this_bit (cleared k current))
    ∙ ground (
      arith,
      digit-cleared j k current,
      has_bit-digit current j,
      digit_cases j current,
      digit-power j k,
      digit-zero j,
    )

has_bit-same : (k : ℕ) → has_bit (2 ^ k) (2 ^ k) ≡ true
has_bit-same k = ground (arith, has_bit-digit (2 ^ k) k, digit-power k k)

immediate_revoke-build :
    (current k : ℕ) → (build_permission_toggle current (2 ^ k) false).immediate_revoke ≡ 2 ^ k
unfolding build_permission_toggle
immediate_revoke-build current k = refl

-- Where the bit is kept, or was not granted, or is revoked at once, no drain starts.
updated-draining :
    (u : PermissionUpdate) (b : ℕ) (st : BitState)
    → (st ≡ granted
        → (has_bit u.granted_permissions b ≡ true) ⊎ (has_bit u.immediate_revoke b ≡ true))
    → updated_state u b st ≡ draining
    → st ≡ draining
unfolding updated_state
updated-draining u b granted h e = ground (arith, h refl)
updated-draining u b draining h e = refl
updated-draining u b not_granted h e = ground arith

kept_or_revoked :
    (current k j : ℕ) (grant : Bool)
    → has_bit current (2 ^ j) ≡ true
    → let u = build_permission_toggle current (2 ^ k) grant in
      (has_bit u.granted_permissions (2 ^ j) ≡ true) ⊎ (has_bit u.immediate_revoke (2 ^ j) ≡ true)
kept_or_revoked current k j true h =
    inl (ground (arith, has_bit-build_permission_toggle current k j true))
kept_or_revoked current k j false h = elim (Bool-cases (k == j)) [
  | inl e ↦ inr (
      ap (λ n. has_bit n (2 ^ j)) (immediate_revoke-build current k)
      ∙ ap (λ n. has_bit (2 ^ n) (2 ^ j)) (ground arith)
      ∙ has_bit-same j)
  | inr e ↦ inl (ground (arith, has_bit-build_permission_toggle current k j false))
]

-- A toggle of the bit `k`, made on a mask that has every bit that is granted, starts no drain: a
-- bit that drains after it was draining before.
toggle_never_drains :
    (s : PermissionSm) (current k j : ℕ) (grant : Bool)
    → contains (2 ^ j) all_bits ≡ true
    → (state s (2 ^ j) ≡ granted → has_bit current (2 ^ j) ≡ true)
    → state (apply_update s (build_permission_toggle current (2 ^ k) grant)) (2 ^ j) ≡ draining
    → state s (2 ^ j) ≡ draining
toggle_never_drains s current k j grant known mirrored h =
    let u = build_permission_toggle current (2 ^ k) grant in
    let e = state-apply_update s u (2 ^ j) in
    updated-draining u (2 ^ j) (state s (2 ^ j))
      (λ is_granted. kept_or_revoked current k j grant (mirrored is_granted)) (ground arith)
