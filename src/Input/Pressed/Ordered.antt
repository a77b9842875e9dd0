-- ===== src/Input/Pressed/Ordered.antt =====
-- The ordered set: what its operations do to membership and to the order.
use sardp.Base.{ℕ, ◌≤◌, ◌<◌, ◌≡◌, ◌⊎◌, ◌↔◌, inl, inr, List, [], ◌∷◌, ltb, ◌==◌, arith, Bool-cases}
use sardp.Input.Pressed.{insert, remove}

abbrev pub IsIn : ℕ → List ℕ → Type 0
IsIn x [] = ⊥
IsIn x (y ∷ ys) = (x ≡ y) ⊎ IsIn x ys

abbrev AllAbove : ℕ → List ℕ → Type 0
AllAbove low [] = Unit {0}
AllAbove low (x ∷ xs) = (low < x) × AllAbove low xs

abbrev pub IsAscending : List ℕ → Type 0
IsAscending [] = Unit {0}
IsAscending (x ∷ xs) = AllAbove x xs × IsAscending xs

pub insert-IsIn : (x k : ℕ) (xs : List ℕ) → IsIn k (insert x xs) ↔ ((k ≡ x) ⊎ IsIn k xs)
unfolding insert
insert-IsIn x k [] = (λ h. h, λ h. h)
insert-IsIn x k (y ∷ ys) =
    let ih = insert-IsIn x k ys in (λ h. ground (arith, ih), λ h. ground (arith, ih))

above_not_in : (k low : ℕ) (xs : List ℕ) → k ≤ low → AllAbove low xs → IsIn k xs → ⊥
above_not_in k low [] h a i = i
above_not_in k low (x ∷ xs) h a (inl i) = omega arith
above_not_in k low (x ∷ xs) h a (inr i) = above_not_in k low xs h a.1 i

pub remove-IsIn :
    (x k : ℕ) (xs : List ℕ) → IsAscending xs → IsIn k (remove x xs) ↔ (((k ≡ x) → ⊥) × IsIn k xs)
unfolding remove
remove-IsIn x k [] a = (λ h. absurd h, λ h. absurd h.1)
remove-IsIn x k (y ∷ ys) a = elim (Bool-cases (x == y)) [
  | inl e ↦
      let gone = above_not_in k y ys in
      (
        λ h. let i : IsIn k ys = ground arith in (λ same. gone (ground arith) a.0 i, inr i),
        λ (differs, i). elim i [
          | inl same ↦ absurd (differs (ground arith))
          | inr j ↦ ground (arith, j)
        ],
      )
  | inr e ↦ let ih = remove-IsIn x k ys a.1 in (λ h. ground (arith, ih), λ h. ground (arith, ih))
]

AllAbove-lower : (low high : ℕ) (xs : List ℕ) → low ≤ high → AllAbove high xs → AllAbove low xs
AllAbove-lower low high [] h a = tt
AllAbove-lower low high (x ∷ xs) h a = (omega arith, AllAbove-lower low high xs h a.1)

insert-AllAbove : (low x : ℕ) (xs : List ℕ) → low < x → AllAbove low xs → AllAbove low (insert x xs)
unfolding insert
insert-AllAbove low x [] h a = (h, tt)
insert-AllAbove low x (y ∷ ys) h a = ground (arith, insert-AllAbove low x ys h a.1)

pub insert-IsAscending : (x : ℕ) (xs : List ℕ) → IsAscending xs → IsAscending (insert x xs)
unfolding insert
insert-IsAscending x [] a = (tt, tt)
insert-IsAscending x (y ∷ ys) a = elim (Bool-cases (ltb x y)) [
  | inl e ↦ ground (arith, AllAbove-lower x y ys (ground arith) a.0)
  | inr e ↦ elim (Bool-cases (x == y)) [
    | inl f ↦ ground arith
    | inr f ↦ ground (arith, insert-AllAbove y x ys (ground arith) a.0, insert-IsAscending x ys a.1)
  ]
]

remove-AllAbove : (low x : ℕ) (xs : List ℕ) → AllAbove low xs → AllAbove low (remove x xs)
unfolding remove
remove-AllAbove low x [] a = tt
remove-AllAbove low x (y ∷ ys) a = ground (arith, remove-AllAbove low x ys a.1)

pub remove-IsAscending : (x : ℕ) (xs : List ℕ) → IsAscending xs → IsAscending (remove x xs)
unfolding remove
remove-IsAscending x [] a = tt
remove-IsAscending x (y ∷ ys) a =
    ground (arith, remove-AllAbove y x ys a.0, remove-IsAscending x ys a.1)
