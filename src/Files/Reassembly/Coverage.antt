-- ===== src/Files/Reassembly/Coverage.antt =====
-- A transfer is complete exactly when no byte of the file is missing.
use sardp.Base.{
  ℕ, zero, suc, ◌+◌, ◌≤◌, ◌<◌, max, ◌≡◌, ◌⊎◌, ◌↔◌, subst, ◌==◌, inl, inr, true, List, [], ◌∷◌, leb,
  ltb, arith, Bool-cases,
}
use sardp.Files.Reassembly.{FileReassembly, insert_by_offset, sort_by_offset, covers, is_complete}

-- The byte at `p` lies in one of the ranges.
abbrev pub IsIn : ℕ → List (ℕ × ℕ) → Type 0
IsIn p [] = ⊥
IsIn p ((offset, len) ∷ ranges) = ((offset ≤ p) × (p < offset + len)) ⊎ IsIn p ranges

-- Every range ends within the file.
abbrev pub AllWithin : ℕ → List (ℕ × ℕ) → Type 0
AllWithin size [] = Unit {0}
AllWithin size ((offset, len) ∷ ranges) = (offset + len ≤ size) × AllWithin size ranges

abbrev AllFrom : ℕ → List (ℕ × ℕ) → Type 0
AllFrom low [] = Unit {0}
AllFrom low ((offset, len) ∷ ranges) = (low ≤ offset) × AllFrom low ranges

abbrev IsSorted : List (ℕ × ℕ) → Type 0
IsSorted [] = Unit {0}
IsSorted ((offset, len) ∷ ranges) = AllFrom offset ranges × IsSorted ranges

insert-AllFrom :
    (low : ℕ) (x : ℕ × ℕ) (ys : List (ℕ × ℕ))
    → low ≤ x.0
    → AllFrom low ys
    → AllFrom low (insert_by_offset x ys)
unfolding insert_by_offset
insert-AllFrom low x [] h a = (h, tt)
insert-AllFrom low x (y ∷ ys) h a = ground (arith, insert-AllFrom low x ys h a.1)

AllFrom-lower : (low high : ℕ) (ys : List (ℕ × ℕ)) → low ≤ high → AllFrom high ys → AllFrom low ys
AllFrom-lower low high [] h a = tt
AllFrom-lower low high (y ∷ ys) h a = (omega arith, AllFrom-lower low high ys h a.1)

insert-IsSorted : (x : ℕ × ℕ) (ys : List (ℕ × ℕ)) → IsSorted ys → IsSorted (insert_by_offset x ys)
unfolding insert_by_offset
insert-IsSorted x [] s = (tt, tt)
insert-IsSorted x (y ∷ ys) s = elim (Bool-cases (leb x.0 y.0)) [
  | inl e ↦ ground (arith, AllFrom-lower x.0 y.0 ys (ground arith) s.0)
  | inr e ↦ ground (arith, insert-AllFrom y.0 x ys (ground arith) s.0, insert-IsSorted x ys s.1)
]

sort-IsSorted : (ranges : List (ℕ × ℕ)) → IsSorted (sort_by_offset ranges)
unfolding sort_by_offset
sort-IsSorted [] = tt
sort-IsSorted (x ∷ xs) = insert-IsSorted x (sort_by_offset xs) (sort-IsSorted xs)

insert-IsIn :
    (p : ℕ) (x : ℕ × ℕ) (ys : List (ℕ × ℕ)) → IsIn p (insert_by_offset x ys) ↔ IsIn p (x ∷ ys)
unfolding insert_by_offset
insert-IsIn p x [] = (λ h. h, λ h. h)
insert-IsIn p x (y ∷ ys) =
    let ih = insert-IsIn p x ys in (λ h. ground (arith, ih), λ h. ground (arith, ih))

sort-IsIn : (p : ℕ) (ranges : List (ℕ × ℕ)) → IsIn p (sort_by_offset ranges) ↔ IsIn p ranges
unfolding sort_by_offset
sort-IsIn p [] = (λ h. h, λ h. h)
sort-IsIn p (x ∷ xs) =
    let ih = sort-IsIn p xs in
    let one = insert-IsIn p x (sort_by_offset xs) in
    (λ h. ground (arith, ih, one), λ h. ground (arith, ih, one))

insert-AllWithin :
    (size : ℕ) (x : ℕ × ℕ) (ys : List (ℕ × ℕ))
    → AllWithin size (x ∷ ys)
    → AllWithin size (insert_by_offset x ys)
unfolding insert_by_offset
insert-AllWithin size x [] h = h
insert-AllWithin size x (y ∷ ys) h = ground (arith, insert-AllWithin size x ys (h.0, h.1.1))

sort-AllWithin :
    (size : ℕ) (ranges : List (ℕ × ℕ))
    → AllWithin size ranges
    → AllWithin size (sort_by_offset ranges)
unfolding sort_by_offset
sort-AllWithin size [] h = tt
sort-AllWithin size (x ∷ xs) h =
    insert-AllWithin size x (sort_by_offset xs) (h.0, sort-AllWithin size xs h.1)

-- What the sweep says, from `covered` on.
covers_sound :
    (size covered p : ℕ) (ranges : List (ℕ × ℕ))
    → covers size covered ranges ≡ true
    → covered ≤ p
    → p < size
    → IsIn p ranges
unfolding covers
covers_sound size covered p [] h low high = ground arith
covers_sound size covered p ((offset, len) ∷ ranges) h low high =
    elim (Bool-cases (ltb p (offset + len))) [
      | inl e ↦ inl (ground arith, ground arith)
      | inr e ↦ inr (
          covers_sound size (max covered (offset + len)) p ranges (ground arith) (ground arith)
            high)
    ]

none_below : (p low : ℕ) (ranges : List (ℕ × ℕ)) → p < low → AllFrom low ranges → IsIn p ranges → ⊥
none_below p low [] h a i = i
none_below p low ((offset, len) ∷ ranges) h a (inl i) = omega arith
none_below p low ((offset, len) ∷ ranges) h a (inr i) = none_below p low ranges h a.1 i

covers_complete :
    (size covered : ℕ) (ranges : List (ℕ × ℕ))
    → IsSorted ranges
    → AllWithin size ranges
    → ((p : ℕ) → covered ≤ p → p < size → IsIn p ranges)
    → covers size covered ranges ≡ true
unfolding covers
covers_complete size covered [] s w h = elim (Bool-cases (leb size covered)) [
  | inl e ↦ e
  | inr e ↦ absurd (h covered (omega arith) (ground arith))
]
covers_complete size covered ((offset, len) ∷ ranges) s w h =
    elim (Bool-cases (ltb covered offset)) [
      | inl e ↦ absurd (
          none_below covered offset ((offset, len) ∷ ranges) (ground arith) (omega arith, s.0)
            (h covered (omega arith) (ground arith)))
      | inr e ↦ rw e (
          covers_complete size (max covered (offset + len)) ranges s.1 w.1 (λ p low high.
            elim (h p (omega arith) high) [ inl i ↦ absurd (omega arith) | inr i ↦ i ]))
    ]

pub covered_iff :
    (r : FileReassembly)
    → AllWithin r.resolved_size r.received_ranges
    → (is_complete r ≡ true) ↔ ((p : ℕ) → p < r.resolved_size → IsIn p r.received_ranges)
unfolding is_complete
covered_iff r w =
    let sorted = sort_by_offset r.received_ranges in
    (
      λ h p high.
          (sort-IsIn p r.received_ranges).0
            (covers_sound r.resolved_size 0 p sorted h (omega arith) high),
      λ h.
          covers_complete r.resolved_size 0 sorted (sort-IsSorted r.received_ranges)
            (sort-AllWithin r.resolved_size r.received_ranges w)
            (λ p low high. (sort-IsIn p r.received_ranges).1 (h p high)),
    )

-- Each of the first `n` bytes lies in one of the ranges.
abbrev pub AllIn : ℕ → List (ℕ × ℕ) → Type 0
AllIn zero ranges = Unit {0}
AllIn (suc n) ranges = IsIn n ranges × AllIn n ranges

all_in : (n : ℕ) (ranges : List (ℕ × ℕ)) → ((p : ℕ) → p < n → IsIn p ranges) → AllIn n ranges
all_in zero ranges h = tt
all_in (suc n) ranges h = (h n (omega arith), all_in n ranges (λ p low. h p (omega arith)))

IsIn-all : (n p : ℕ) (ranges : List (ℕ × ℕ)) → AllIn n ranges → p < n → IsIn p ranges
IsIn-all zero p ranges a h = absurd (omega arith)
IsIn-all (suc n) p ranges a h = elim (Bool-cases (p == n)) [
  | inl e ↦ subst (λ i. IsIn i ranges) (ground arith) a.0
  | inr e ↦ IsIn-all n p ranges a.1 (ground arith)
]

-- The test answers yes exactly when every byte of the file lies in a range that was received, in
-- whatever order the ranges came, as long as each ends within the file, which `apply_chunk` sees
-- to.
pub is_complete_iff :
    (r : FileReassembly)
    → AllWithin r.resolved_size r.received_ranges
    → (is_complete r ≡ true) ↔ AllIn r.resolved_size r.received_ranges
is_complete_iff r w =
    let (to, from) = covered_iff r w in
    (
      λ h. all_in r.resolved_size r.received_ranges (to h),
      λ a. from (λ p low. IsIn-all r.resolved_size p r.received_ranges a low),
    )
