-- ===== src/Files/Reassembly/Copy.antt =====
-- Bytes by their place, and the places that a copy into a slice changes.
use sardp.Base.{
  ℕ, zero, suc, ◌+◌, ◌-◌, ◌≤◌, ◌<◌, ◌≡◌, refl, sym, ap, ◌∙◌, subst, inl, inr, ◌&&◌, List, [], ◌∷◌,
  ◌++◌, length, take, drop, replicate, get_or, get_or-append, get_or-append_lt, length-take,
  length-drop, length-append, length-take_le, leb, ltb, ltb→lt, if◌then◌else◌, arith, Bool-cases,
}
use sardp.Files.Reassembly.{copy_into}

pub get_or-take : (n p : ℕ) (xs : List ℕ) → p < n → get_or (take n xs) p 0 ≡ get_or xs p 0
get_or-take zero p xs h = absurd (omega arith)
get_or-take (suc n) p [] h = refl
get_or-take (suc n) zero (x ∷ xs) h = refl
get_or-take (suc n) (suc p) (x ∷ xs) h = get_or-take n p xs (omega arith)

pub get_or-drop : (n p : ℕ) (xs : List ℕ) → get_or (drop n xs) p 0 ≡ get_or xs (n + p) 0
get_or-drop zero p xs = ap (λ i. get_or xs i 0) (omega arith)
get_or-drop (suc n) p [] = refl
get_or-drop (suc n) p (x ∷ xs) =
    get_or-drop n p xs ∙ ap (λ i. get_or (x ∷ xs) i 0) {x = suc (n + p)} (omega arith)

pub extensionality :
    (xs ys : List ℕ)
    → length xs ≡ length ys
    → ((p : ℕ) → p < length ys → get_or xs p 0 ≡ get_or ys p 0)
    → xs ≡ ys
extensionality [] [] e h = refl
extensionality [] (y ∷ ys) e h = absurd (omega arith)
extensionality (x ∷ xs) [] e h = absurd (omega arith)
extensionality (x ∷ xs) (y ∷ ys) e h =
    let heads : x ≡ y = h 0 (omega arith) in
    let tails : xs ≡ ys = extensionality xs ys (omega arith) (λ p low. h (suc p) (omega arith)) in
    cc

pub length-replicate : (n a : ℕ) → length (replicate n a) ≡ n
length-replicate zero a = refl
length-replicate (suc n) a = omega (arith, length-replicate n a)

-- The bytes after a copy.
module _ (contents : List ℕ) (offset : ℕ) (content : List ℕ)
    (fits : offset + length content ≤ length contents) where
  abbrev pub end : ℕ
  end = offset + length content

  length-copy_into : length (copy_into contents offset end content) ≡ length contents
  length-copy_into = omega (
    arith,
    length-append (take offset contents) (content ++ drop end contents),
    length-append content (drop end contents),
    length-take offset contents,
    length-drop end contents,
  )

  pub front : length (take offset contents) ≡ offset
  front = length-take_le offset contents (omega arith)

  get_or-copy_before :
      (p : ℕ)
      → p < offset
      → get_or (copy_into contents offset end content) p 0 ≡ get_or contents p 0
  get_or-copy_before p h =
      get_or-append_lt (take offset contents) (content ++ drop end contents) p 0
        (omega (arith, front))
      ∙ get_or-take offset p contents h

  get_or-copy_at :
      (i : ℕ)
      → get_or (copy_into contents offset end content) (offset + i) 0
        ≡ get_or (content ++ drop end contents) i 0
  get_or-copy_at i =
      ap (λ n. get_or (copy_into contents offset end content) (n + i) 0) (sym front)
      ∙ get_or-append (take offset contents) (content ++ drop end contents) i 0

  get_or-copy_within :
      (i : ℕ)
      → i < length content
      → get_or (copy_into contents offset end content) (offset + i) 0 ≡ get_or content i 0
  get_or-copy_within i h = get_or-copy_at i ∙ get_or-append_lt content (drop end contents) i 0 h

  get_or-copy_behind :
      (i : ℕ)
      → get_or (copy_into contents offset end content) (end + i) 0 ≡ get_or contents (end + i) 0
  get_or-copy_behind i =
      ap (λ n. get_or (copy_into contents offset end content) n 0)
        {y = offset + (length content + i)} (omega arith)
      ∙ get_or-copy_at (length content + i)
      ∙ get_or-append content (drop end contents) i 0
      ∙ get_or-drop end i contents

by_place :
    (contents content : List ℕ) (offset p : ℕ)
    → offset + length content ≤ length contents
    → get_or (copy_into contents offset (offset + length content) content) p 0 ≡ (
        if leb offset p && ltb p (offset + length content)
        then get_or content (p - offset) 0
        else get_or contents p 0)
by_place contents content offset p fits =
    let stop = offset + length content in
    let copied = copy_into contents offset stop content in
    let at : (i : ℕ) → i ≡ p → get_or copied i 0 ≡ get_or copied p 0 =
      λ i e. ap (λ n. get_or copied n 0) e in
    elim (Bool-cases (ltb p offset)) [
      | inl e ↦
          ground (arith, get_or-copy_before contents offset content fits p (ltb→lt p offset e))
      | inr e ↦ elim (Bool-cases (ltb p stop)) [
        | inl f ↦ ground (
          arith,
          at (offset + (p - offset)) (ground arith),
          get_or-copy_within contents offset content fits (p - offset) (ground arith),
        )
        | inr f ↦ ground (
          arith,
          at (stop + (p - stop)) (ground arith),
          get_or-copy_behind contents offset content fits (p - stop),
          ap (λ n. get_or contents n 0) {x = stop + (p - stop)} {y = p} (ground arith),
        )
      ]
    ]

-- A copy of `len` bytes changes their places and no other.
pub get_or-copy_into :
    (contents content : List ℕ) (offset len p : ℕ)
    → length content ≡ len
    → offset + len ≤ length contents
    → get_or (copy_into contents offset (offset + len) content) p 0 ≡ (
        if leb offset p && ltb p (offset + len)
        then get_or content (p - offset) 0
        else get_or contents p 0)
get_or-copy_into contents content offset len p same fits =
    subst
      (λ n. get_or (copy_into contents offset (offset + n) content) p 0 ≡ (
        if leb offset p && ltb p (offset + n)
        then get_or content (p - offset) 0
        else get_or contents p 0))
      same (by_place contents content offset p (omega arith))

pub length-copy :
    (contents content : List ℕ) (offset len : ℕ)
    → length content ≡ len
    → offset + len ≤ length contents
    → length (copy_into contents offset (offset + len) content) ≡ length contents
length-copy contents content offset len same fits =
    subst (λ n. length (copy_into contents offset (offset + n) content) ≡ length contents) same
      (length-copy_into contents offset content (omega arith))
