-- ===== src/Video/Backpressure/Deque.antt =====
-- The deque of the tracker: the least value of its samples since a time, through each of its loops.
use sardp.Base.{
  ℕ, ◌≤◌, ◌<◌, min, ◌≡◌, refl, Option, none, some, List, [], ◌∷◌, ◌++◌, leb, if◌then◌else◌, arith,
}
use sardp.Video.Backpressure.{pop_back_while, pop_front_while}

abbrev pub lower : ℕ → Option ℕ → ℕ
lower v none = v
lower v (some w) = min v w

-- The least value of the samples that are not older than `cutoff`.
abbrev pub min_since : ℕ → List (ℕ × ℕ) → Option ℕ
min_since cutoff [] = none
min_since cutoff ((t, v) ∷ samples) =
    let rest = min_since cutoff samples in if leb cutoff t then some (lower v rest) else rest

abbrev pub AllBefore : ℕ → List (ℕ × ℕ) → Type 0
AllBefore now [] = Unit {0}
AllBefore now ((t, v) ∷ samples) = (t ≤ now) × AllBefore now samples

-- The clock does not run backwards.
abbrev pub IsTimeOrdered : List (ℕ × ℕ) → Type 0
IsTimeOrdered [] = Unit {0}
IsTimeOrdered ((t, v) ∷ older) = AllBefore t older × IsTimeOrdered older

-- The deque: from front to back neither the times nor the values go down, the values go up.
abbrev Above : ℕ → ℕ → List (ℕ × ℕ) → Type 0
Above t v [] = Unit {0}
Above t v ((u, w) ∷ samples) = (t ≤ u) × (v < w) × Above t v samples

abbrev pub IsMonotonic : List (ℕ × ℕ) → Type 0
IsMonotonic [] = Unit {0}
IsMonotonic ((t, v) ∷ samples) = Above t v samples × IsMonotonic samples

Above-pop_back_while :
    (t v value : ℕ) (s : List (ℕ × ℕ)) → Above t v s → Above t v (pop_back_while value s)
unfolding pop_back_while
Above-pop_back_while t v value [] h = tt
Above-pop_back_while t v value ((u, w) ∷ s) h = ground (arith, Above-pop_back_while t v value s h.2)

Above-snoc :
    (t v now value : ℕ) (s : List (ℕ × ℕ))
    → Above t v s
    → t ≤ now
    → v < value
    → Above t v (s ++ (now, value) ∷ [])
Above-snoc t v now value [] h older less = (older, less, tt)
Above-snoc t v now value ((u, w) ∷ s) h older less =
    (h.0, h.1, Above-snoc t v now value s h.2 older less)

Above-snoc_inv :
    (t v now value : ℕ) (s : List (ℕ × ℕ))
    → Above t v (s ++ (now, value) ∷ [])
    → (t ≤ now) × (v < value)
Above-snoc_inv t v now value [] h = (h.0, h.1)
Above-snoc_inv t v now value ((u, w) ∷ s) h = Above-snoc_inv t v now value s h.2

pub AllBefore-pop_back_while :
    (now value : ℕ) (s : List (ℕ × ℕ)) → AllBefore now s → AllBefore now (pop_back_while value s)
unfolding pop_back_while
AllBefore-pop_back_while now value [] h = tt
AllBefore-pop_back_while now value ((u, w) ∷ s) h =
    ground (arith, AllBefore-pop_back_while now value s h.1)

pub push-IsMonotonic :
    (now value : ℕ) (s : List (ℕ × ℕ))
    → IsMonotonic s
    → AllBefore now s
    → IsMonotonic (pop_back_while value s ++ (now, value) ∷ [])
unfolding pop_back_while
push-IsMonotonic now value [] mono before = (tt, tt)
push-IsMonotonic now value ((t, v) ∷ s) mono before =
    let ih = push-IsMonotonic now value s mono.1 before.1 in
    let above = Above-pop_back_while t v value s mono.0 in
    (elim (pop_back_while value s)
        as (λ r.
          IsMonotonic (r ++ (now, value) ∷ [])
          → Above t v r
          → IsMonotonic (
              (elim r [ [] ↦ if leb value v then [] else (t, v) ∷ [] | x ∷ xs ↦ (t, v) ∷ x ∷ xs ])
              ++ (now, value) ∷ [])) [
                | [] ↦ λ ih above. ground (arith, before.0)
                | (u, w) ∷ xs ↦ λ ih above.
                    let (later, greater) = Above-snoc_inv u w now value xs ih.0 in
                    (Above-snoc t v now value ((u, w) ∷ xs) above before.0 (omega arith), ih)
              ])
      ih above

pub min_since-push :
    (cutoff now value : ℕ) (s : List (ℕ × ℕ))
    → cutoff ≤ now
    → min_since cutoff (pop_back_while value s ++ (now, value) ∷ [])
      ≡ some (lower value (min_since cutoff s))
unfolding pop_back_while
min_since-push cutoff now value [] h = ground arith
min_since-push cutoff now value ((t, v) ∷ s) h =
    let ih = min_since-push cutoff now value s h in
    (elim (pop_back_while value s)
        as (λ r.
          min_since cutoff (r ++ (now, value) ∷ []) ≡ some (lower value (min_since cutoff s))
          → min_since cutoff (
              (elim r [ [] ↦ if leb value v then [] else (t, v) ∷ [] | x ∷ xs ↦ (t, v) ∷ x ∷ xs ])
              ++ (now, value) ∷ [])
            ≡ some (lower value (min_since cutoff ((t, v) ∷ s)))) [
              | [] ↦ λ ih. ground (arith, ih)
              | (u, w) ∷ xs ↦ λ ih. ground (arith, ih)
            ])
      ih

pop_front-Above :
    (t v cutoff : ℕ) (s : List (ℕ × ℕ)) → Above t v s → Above t v (pop_front_while cutoff s)
unfolding pop_front_while
pop_front-Above t v cutoff [] h = tt
pop_front-Above t v cutoff ((u, w) ∷ s) h = ground (arith, pop_front-Above t v cutoff s h.2)

pub pop_front-IsMonotonic :
    (cutoff : ℕ) (s : List (ℕ × ℕ)) → IsMonotonic s → IsMonotonic (pop_front_while cutoff s)
unfolding pop_front_while
pop_front-IsMonotonic cutoff [] h = tt
pop_front-IsMonotonic cutoff ((u, w) ∷ s) h = ground (arith, pop_front-IsMonotonic cutoff s h.1)

pub pop_front-AllBefore :
    (now cutoff : ℕ) (s : List (ℕ × ℕ)) → AllBefore now s → AllBefore now (pop_front_while cutoff s)
unfolding pop_front_while
pop_front-AllBefore now cutoff [] h = tt
pop_front-AllBefore now cutoff ((u, w) ∷ s) h = ground (arith, pop_front-AllBefore now cutoff s h.1)

pub min_since-pop_front :
    (cutoff limit : ℕ) (s : List (ℕ × ℕ))
    → cutoff ≤ limit
    → min_since limit (pop_front_while cutoff s) ≡ min_since limit s
unfolding pop_front_while
min_since-pop_front cutoff limit [] h = refl
min_since-pop_front cutoff limit ((u, w) ∷ s) h =
    ground (arith, min_since-pop_front cutoff limit s h)

min_since-Above : (limit t v : ℕ) (s : List (ℕ × ℕ)) → Above t v s → lower v (min_since limit s) ≡ v
min_since-Above limit t v [] h = refl
min_since-Above limit t v ((u, w) ∷ s) h = ground (arith, min_since-Above limit t v s h.2)

pub AllBefore-later :
    (now later : ℕ) (s : List (ℕ × ℕ)) → now ≤ later → AllBefore now s → AllBefore later s
AllBefore-later now later [] h before = tt
AllBefore-later now later ((u, w) ∷ s) h before =
    (omega arith, AllBefore-later now later s h before.1)

pub AllBefore-snoc :
    (now value : ℕ) (s : List (ℕ × ℕ)) → AllBefore now s → AllBefore now (s ++ (now, value) ∷ [])
AllBefore-snoc now value [] h = (omega arith, tt)
AllBefore-snoc now value ((u, w) ∷ s) h = (h.0, AllBefore-snoc now value s h.1)

-- The front of the deque is the least value, once what has expired is gone.
pub front :
    (cutoff : ℕ) (s : List (ℕ × ℕ))
    → IsMonotonic s
    → (elim (pop_front_while cutoff s) as (λ x. Option ℕ) [ [] ↦ none | x ∷ xs ↦ some x.1 ])
      ≡ min_since cutoff s
unfolding pop_front_while
front cutoff [] h = refl
front cutoff ((u, w) ∷ s) h = ground (arith, front cutoff s h.1, min_since-Above cutoff u w s h.0)

pub min_since-none :
    (cutoff now : ℕ) (s : List (ℕ × ℕ)) → now < cutoff → AllBefore now s → min_since cutoff s ≡ none
min_since-none cutoff now [] h before = refl
min_since-none cutoff now ((u, w) ∷ s) h before =
    ground (arith, min_since-none cutoff now s h before.1)
