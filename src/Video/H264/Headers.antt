-- ===== src/Video/H264/Headers.antt =====
-- The types of src/h264.rs seen without spans: each follows the bytes 0, 0, 1.
use sardp.Base.{
  ℕ, zero, suc, ◌+◌, ◌≤◌, ◌≡◌, ◌⊎◌, refl, ap, sym, subst, ◌∙◌, inl, inr, Bool, false, ◌&&◌, none,
  some, List, [], ◌∷◌, ◌++◌, length, take, drop, get_or, ◌==◌, if◌then◌else◌, arith, bit_and,
  Bool-cases,
}
use sardp.Video.H264.{start_code_at, find_from}

abbrev pub type_of : List ℕ → ℕ
type_of bytes = bit_and (get_or bytes 0 0) 31

-- A type 0 is left out: an empty unit has none, and no unit of type 0 is ever looked for.
abbrev pub keep : ℕ → List ℕ → List ℕ
keep t types = if t == 0 then types else t ∷ types

abbrev is_code : List ℕ → Bool
is_code (a ∷ b ∷ c ∷ rest) = a == 0 && (b == 0 && c == 1)
is_code bytes = false

-- The types behind each 0, 0, 1.
unfoldable pub headers : List ℕ → List ℕ
headers [] = []
headers (b ∷ bytes) =
    let rest = headers bytes in
    if is_code (b ∷ bytes) then keep (type_of (drop 2 bytes)) rest else rest

pub headers_nil : headers [] ≡ []
unfolding headers
headers_nil = refl

-- The same, for bytes that stand behind a start code.
unfoldable pub headers_behind : List ℕ → List ℕ
headers_behind bytes = keep (type_of bytes) (headers bytes)

-- How a buffer may begin.
pub Begins : List ℕ → Type 0
Begins bytes =
    ((start_code_at bytes ≡ none) × (is_code bytes ≡ false))
    ⊎ (((rest : List ℕ) × (bytes ≡ 0 ∷ 0 ∷ 1 ∷ rest))
        ⊎ ((rest : List ℕ) × (bytes ≡ 0 ∷ 0 ∷ 0 ∷ 1 ∷ rest)))

pub begins : (bytes : List ℕ) → Begins bytes
unfolding Begins start_code_at
begins [] = inl (refl, refl)
begins (a ∷ []) = inl (refl, refl)
begins (a ∷ b ∷ []) = inl (refl, refl)
begins (a ∷ b ∷ c ∷ []) = elim (Bool-cases (is_code (a ∷ b ∷ c ∷ []))) [
  | inl e ↦ inr (inl ([], ground arith))
  | inr e ↦ inl (ground arith, e)
]
begins (a ∷ b ∷ c ∷ d ∷ rest) = elim (Bool-cases (is_code (a ∷ b ∷ c ∷ d ∷ rest))) [
  | inl e ↦ inr (inl (d ∷ rest, ground arith))
  | inr e ↦ elim (Bool-cases (a == 0 && b == 0 && (c == 0 && d == 1))) [
    | inl f ↦ inr (inr (rest, ground arith))
    | inr f ↦ inl (ground arith, e)
  ]
]

pub headers-short : (rest : List ℕ) → headers (0 ∷ 0 ∷ 1 ∷ rest) ≡ headers_behind rest
unfolding headers headers_behind
headers-short [] = refl
headers-short (a ∷ []) = refl
headers-short (a ∷ b ∷ rest) = refl

pub headers-long : (rest : List ℕ) → headers (0 ∷ 0 ∷ 0 ∷ 1 ∷ rest) ≡ headers_behind rest
unfolding headers headers_behind
headers-long [] = refl
headers-long (a ∷ []) = refl
headers-long (a ∷ b ∷ rest) = refl

-- `bytes` is a start code of `k` bytes, and `rest` is behind it.
unfoldable pub Opens : List ℕ → ℕ → List ℕ → Type 0
Opens bytes k rest =
    ((k ≡ 3) × (bytes ≡ 0 ∷ 0 ∷ 1 ∷ rest)) ⊎ ((k ≡ 4) × (bytes ≡ 0 ∷ 0 ∷ 0 ∷ 1 ∷ rest))

-- The first start code in `bytes` stands behind `j` bytes and has `k`.
unfoldable pub At : List ℕ → ℕ → ℕ → Type 0
At bytes j k =
    (j + k ≤ length bytes)
    × (headers bytes ≡ headers_behind (drop (j + k) bytes))
    × (headers (take j bytes) ≡ [])
    × Opens (drop j bytes) k (drop (j + k) bytes)

is_code-take : (k : ℕ) (bytes : List ℕ) → is_code bytes ≡ false → is_code (take k bytes) ≡ false
is_code-take zero bytes h = refl
is_code-take (suc zero) [] h = refl
is_code-take (suc zero) (a ∷ bytes) h = refl
is_code-take (suc (suc zero)) [] h = refl
is_code-take (suc (suc zero)) (a ∷ []) h = refl
is_code-take (suc (suc zero)) (a ∷ b ∷ bytes) h = refl
is_code-take (suc (suc (suc k))) [] h = refl
is_code-take (suc (suc (suc k))) (a ∷ []) h = refl
is_code-take (suc (suc (suc k))) (a ∷ b ∷ []) h = refl
is_code-take (suc (suc (suc k))) (a ∷ b ∷ c ∷ bytes) h = h

headers-skip :
    (b : ℕ) (bytes : List ℕ) → is_code (b ∷ bytes) ≡ false → headers (b ∷ bytes) ≡ headers bytes
unfolding headers
headers-skip b bytes h = rw h refl

find_from-short : (i : ℕ) (rest : List ℕ) → find_from i (0 ∷ 0 ∷ 1 ∷ rest) ≡ some (i, i + 3)
unfolding find_from start_code_at
find_from-short i rest = refl

find_from-long : (i : ℕ) (rest : List ℕ) → find_from i (0 ∷ 0 ∷ 0 ∷ 1 ∷ rest) ≡ some (i, i + 4)
unfolding find_from start_code_at
find_from-long i rest = refl

find_from-skip :
    (i b : ℕ) (bytes : List ℕ)
    → start_code_at (b ∷ bytes) ≡ none
    → find_from i (b ∷ bytes) ≡ find_from (suc i) bytes
unfolding find_from
find_from-skip i b bytes h = rw (find_from, h) refl

pub headers-none : (i : ℕ) (bytes : List ℕ) → find_from i bytes ≡ none → headers bytes ≡ []
unfolding Begins headers
headers-none i [] h = refl
headers-none i (b ∷ bytes) h = elim (begins (b ∷ bytes)) [
  | inl (no_code, e) ↦
      headers-skip b bytes e
      ∙ headers-none (suc i) bytes (sym (find_from-skip i b bytes no_code) ∙ h)
  | inr (inl (rest, e)) ↦ absurd (cc (find_from-short i rest))
  | inr (inr (rest, e)) ↦ absurd (cc (find_from-long i rest))
]

At-short : (rest : List ℕ) → At (0 ∷ 0 ∷ 1 ∷ rest) 0 3
unfolding At Opens headers
At-short rest = (omega arith, headers-short rest, refl, inl (refl, refl))

At-long : (rest : List ℕ) → At (0 ∷ 0 ∷ 0 ∷ 1 ∷ rest) 0 4
unfolding At Opens headers
At-long rest = (omega arith, headers-long rest, refl, inr (refl, refl))

drop-suc : (b j k : ℕ) (bytes : List ℕ) → drop (suc j + k) (b ∷ bytes) ≡ drop (j + k) bytes
drop-suc b j k bytes = ap (λ m. drop m (b ∷ bytes)) {x = suc j + k} {y = suc (j + k)} (omega arith)

At-skip :
    (b j k : ℕ) (bytes : List ℕ)
    → is_code (b ∷ bytes) ≡ false
    → At bytes j k
    → At (b ∷ bytes) (suc j) k
unfolding At
At-skip b j k bytes e (bound, behind, front, opens) = (
  omega arith,
  headers-skip b bytes e ∙ behind ∙ ap headers_behind (sym (drop-suc b j k bytes)),
  headers-skip b (take j bytes) (is_code-take (suc j) (b ∷ bytes) e) ∙ front,
  subst (λ rest. Opens (drop j bytes) k rest) (sym (drop-suc b j k bytes)) opens,
)

pub find_from-At :
    (i : ℕ) (bytes : List ℕ) (s n : ℕ)
    → find_from i bytes ≡ some (s, n)
    → (j : ℕ) × (k : ℕ) × (s ≡ i + j) × (n ≡ i + j + k) × At bytes j k
unfolding Begins find_from
find_from-At i [] s n h = absurd cc
find_from-At i (b ∷ bytes) s n h = elim (begins (b ∷ bytes)) [
  | inl (no_code, e) ↦
      let (j, k, es, en, at) =
        find_from-At (suc i) bytes s n (sym (find_from-skip i b bytes no_code) ∙ h) in
      (suc j, k, omega arith, omega arith, At-skip b j k bytes e at)
  | inr (inl (rest, e)) ↦
      let found = find_from-short i rest in (0, 3, grind arith, grind arith, rw e (At-short rest))
  | inr (inr (rest, e)) ↦
      let found = find_from-long i rest in (0, 4, grind arith, grind arith, rw e (At-long rest))
]

type_of-append : (xs rest : List ℕ) → type_of (xs ++ 0 ∷ rest) ≡ type_of xs
type_of-append [] rest = refl
type_of-append (x ∷ xs) rest = refl

keep-append : (t : ℕ) (xs ys : List ℕ) → keep t (xs ++ ys) ≡ keep t xs ++ ys
keep-append t xs ys = elim (Bool-cases (t == 0)) [ inl e ↦ rw e refl | inr e ↦ rw e refl ]

-- Bytes that begin with two zeros change nothing in front of them.
pub headers-append :
    (xs rest : List ℕ) → headers (xs ++ 0 ∷ 0 ∷ rest) ≡ headers xs ++ headers (0 ∷ 0 ∷ rest)
unfolding headers
headers-append [] rest = refl
headers-append (a ∷ []) rest = headers-skip a (0 ∷ 0 ∷ rest) (ground arith)
headers-append (a ∷ b ∷ []) rest =
    headers-skip a (b ∷ 0 ∷ 0 ∷ rest) (ground arith) ∙ headers-append (b ∷ []) rest
headers-append (a ∷ b ∷ c ∷ xs) rest = elim (Bool-cases (is_code (a ∷ b ∷ c ∷ xs))) [
  | inl e ↦
      rw (e, type_of-append xs (0 ∷ rest), headers-append (b ∷ c ∷ xs) rest)
        (keep-append (type_of xs) (headers (b ∷ c ∷ xs)) (headers (0 ∷ 0 ∷ rest)))
  | inr e ↦ rw e (headers-append (b ∷ c ∷ xs) rest)
]
