-- ===== src/Video/H264/SelfContained.antt =====
-- The parameter sets of src/h264.rs in front of an IDR access unit.
use sardp.Base.{
  ℕ, zero, suc, ◌-◌, ◌<◌, ◌≡◌, ◌⊎◌, refl, ap, sym, subst, ◌∙◌, inl, inr, Bool, true, false, some,
  List, [], ◌∷◌, ◌++◌, append-nil, append_assoc, drop, get_or, ◌==◌, arith, bit_and, Bool-cases,
  Option-cases,
}
use sardp.Video.H264.{
  slice, nal_spans, extract_loop, extract_parameter_sets, find_start_code, contains_idr_slice,
  contains_sps, is_self_contained_idr, ParameterSetCache, observe, complete_idr, has_sets,
}
use sardp.Video.H264
use sardp.Video.H264.Headers.{
  type_of, keep, headers, headers_nil, headers_behind, headers-short, headers-long, headers-append,
  Opens,
}
use sardp.Video.H264.Spans.{IsUnit, InOrder, nal_spans-Covers, code_found}
use sardp.Video.H264.Types.{
  first-take, has, ordered, any_of_type-headers, is_self_contained_idr-headers,
}

-- Nothing, or bytes that begin with two zeros, as each start code does.
Joins : List ℕ → Type 0
Joins xs = (xs ≡ []) ⊎ ((rest : List ℕ) × (xs ≡ 0 ∷ 0 ∷ rest))

headers-join : (xs ys : List ℕ) → Joins ys → headers (xs ++ ys) ≡ headers xs ++ headers ys
unfolding Joins
headers-join xs ys (inl e) = rw (e, append-nil xs, headers_nil) (sym (append-nil (headers xs)))
headers-join xs ys (inr (rest, e)) = rw e (headers-append xs rest)

Joins-append : (xs ys : List ℕ) → Joins xs → Joins ys → Joins (xs ++ ys)
unfolding Joins
Joins-append xs ys (inl e) hy = subst (λ (zs : List ℕ). Joins (zs ++ ys)) (sym e) hy
Joins-append xs ys (inr (rest, e)) hy = inr (rest ++ ys, ap (λ (zs : List ℕ). zs ++ ys) e)

-- A unit without its start code.
headers_behind-slice :
    (buf : List ℕ) (n e : ℕ)
    → n < e
    → headers (slice buf n e) ≡ []
    → headers_behind (slice buf n e) ≡ keep (type_of (drop n buf)) []
unfolding headers_behind
headers_behind-slice buf n e h no_code =
    rw (no_code, first-take (e - n) (drop n buf) (omega arith)) refl

-- A unit, copied with its start code.
slice_unit :
    (buf : List ℕ) (s n e : ℕ)
    → IsUnit buf (s, n, e)
    → Joins (slice buf s e) × (headers (slice buf s e) ≡ keep (type_of (drop n buf)) [])
unfolding Joins IsUnit Opens
slice_unit buf s n e (wide, some_byte, inside, inl (k, opens), no_code) =
    let size : (e - s) ≡ suc (suc (suc (e - n))) = omega arith in
    let copied : slice buf s e ≡ 0 ∷ 0 ∷ 1 ∷ slice buf n e = rw (size, opens) refl in
    (
      inr (1 ∷ slice buf n e, copied),
      ap headers copied
          ∙ headers-short (slice buf n e)
          ∙ headers_behind-slice buf n e some_byte no_code,
    )
slice_unit buf s n e (wide, some_byte, inside, inr (k, opens), no_code) =
    let size : (e - s) ≡ suc (suc (suc (suc (e - n)))) = omega arith in
    let copied : slice buf s e ≡ 0 ∷ 0 ∷ 0 ∷ 1 ∷ slice buf n e = rw (size, opens) refl in
    (
      inr (0 ∷ 1 ∷ slice buf n e, copied),
      ap headers copied
          ∙ headers-long (slice buf n e)
          ∙ headers_behind-slice buf n e some_byte no_code,
    )

ordered-both : (types : List ℕ) → ordered types true true ≡ has 5 types
ordered-both [] = refl
ordered-both (t ∷ types) = ground (arith, ordered-both types)

-- What the loop appends, before any types: both parameter sets are behind it.
Provides : Bool → Bool → List ℕ → Type 0
Provides sps pps more =
    Joins more
    × ((types : List ℕ) → ordered (headers more ++ types) sps pps ≡ ordered types true true)

Provides-sps :
    (x more : List ℕ) (sps pps : Bool)
    → Joins x
    → headers x ≡ 7 ∷ []
    → Provides true pps more
    → Provides sps pps (x ++ more)
unfolding Provides
Provides-sps x more sps pps joins e (joined, reaches) =
    (Joins-append x more joins joined, λ types. rw (headers-join x more joined, e) (reaches types))

Provides-pps :
    (x more : List ℕ) (sps pps : Bool)
    → Joins x
    → headers x ≡ 8 ∷ []
    → Provides sps true more
    → Provides sps pps (x ++ more)
unfolding Provides
Provides-pps x more sps pps joins e (joined, reaches) =
    (Joins-append x more joins joined, λ types. rw (headers-join x more joined, e) (reaches types))

get_or-drop : (n : ℕ) (xs : List ℕ) → get_or xs n 0 ≡ get_or (drop n xs) 0 0
get_or-drop zero xs = refl
get_or-drop (suc n) [] = refl
get_or-drop (suc n) (x ∷ xs) = get_or-drop n xs

slice-sets :
    (buf : List ℕ) (s n e t : ℕ)
    → IsUnit buf (s, n, e)
    → 0 < t
    → bit_and (get_or buf n 0) 31 ≡ t
    → headers (slice buf s e) ≡ t ∷ []
slice-sets buf s n e t unit h is_t =
    let (joins, types) = slice_unit buf s n e unit in
    let same : type_of (drop n buf) ≡ t = ap (λ b. bit_and b 31) (sym (get_or-drop n buf)) ∙ is_t in
    let not_zero : (t == 0) ≡ false = ground arith in types ∙ rw (same, not_zero) refl

extract_loop-Provides :
    (buf : List ℕ) (low : ℕ) (spans : List (ℕ × ℕ × ℕ)) (sps pps : Bool) (out sets : List ℕ)
    → InOrder buf low spans
    → extract_loop buf spans sps pps out ≡ some sets
    → (more : List ℕ) × (sets ≡ out ++ more) × Provides sps pps more
unfolding extract_loop Provides InOrder Joins
extract_loop-Provides buf low [] true true out sets order h =
    let same : sets ≡ out = cc in
    ([], same ∙ sym (append-nil out), (inl refl, λ types. rw headers_nil refl))
extract_loop-Provides buf low [] true false out sets order h = absurd cc
extract_loop-Provides buf low [] false pps out sets order h = absurd cc
extract_loop-Provides buf low ((s, n, e) ∷ spans) sps pps out sets (after, unit, order) h =
    let t = bit_and (get_or buf n 0) 31 in
    let x = slice buf s e in
    let joins = (slice_unit buf s n e unit).0 in
    elim (Bool-cases (t == 7)) [
      | inl is_sps ↦
          let (more, whole, provides) =
            extract_loop-Provides buf e spans true pps (out ++ x) sets order (ground arith) in
          (
            x ++ more,
            whole ∙ append_assoc out x more,
            Provides-sps x more sps pps joins
                (slice-sets buf s n e 7 unit (omega arith) (ground arith)) provides,
          )
      | inr no_sps ↦ elim (Bool-cases (t == 8)) [
        | inl is_pps ↦
            let (more, whole, provides) =
              extract_loop-Provides buf e spans sps true (out ++ x) sets order (ground arith) in
            (
              x ++ more,
              whole ∙ append_assoc out x more,
              Provides-pps x more sps pps joins
                  (slice-sets buf s n e 8 unit (omega arith) (ground arith)) provides,
            )
        | inr no_pps ↦ extract_loop-Provides buf e spans sps pps out sets order (ground arith)
      ]
    ]

-- Parameter sets that were extracted from an access unit, for every cache that observed any.
IsExtracted : ParameterSetCache → Type 0
IsExtracted cache =
    (sets : List ℕ)
    → cache.sets ≡ some sets
    → (access_unit : List ℕ) × (extract_parameter_sets access_unit ≡ some sets)

abbrev pub observe_all : ParameterSetCache → List (List ℕ) → ParameterSetCache
observe_all cache [] = cache
observe_all cache (unit ∷ units) = observe_all (observe cache unit).0 units

observe-IsExtracted :
    (cache : ParameterSetCache) (unit : List ℕ)
    → IsExtracted cache
    → IsExtracted (observe cache unit).0
unfolding IsExtracted observe
observe-IsExtracted cache unit h sets e = elim (Option-cases cache.sets) [
  | inl none_yet ↦ (unit, ground arith)
  | inr (old, full) ↦ h sets (ground arith)
]

observe_all-IsExtracted :
    (cache : ParameterSetCache) (units : List (List ℕ))
    → IsExtracted cache
    → IsExtracted (observe_all cache units)
observe_all-IsExtracted cache [] h = h
observe_all-IsExtracted cache (unit ∷ units) h =
    observe_all-IsExtracted (observe cache unit).0 units (observe-IsExtracted cache unit h)

new-IsExtracted : IsExtracted H264.new
unfolding IsExtracted H264.new
new-IsExtracted sets e = absurd cc

starts-Joins : (au : List ℕ) (n : ℕ) → find_start_code au 0 ≡ some (0, n) → Joins au
unfolding Joins Opens
starts-Joins au n e =
    let (near, wide, bound, behind, front, opened) = code_found au 0 0 n e (omega arith) in
    elim opened [ inl (k, o) ↦ inr (_, o) | inr (k, o) ↦ inr (_, o) ]

-- Extracted parameter sets are all that the types behind them need.
sets-ordered :
    (unit sets types : List ℕ)
    → extract_parameter_sets unit ≡ some sets
    → ordered (headers sets ++ types) false false ≡ ordered types true true
unfolding extract_parameter_sets Provides
sets-ordered unit sets types e =
    let (more, whole, (joined, reaches)) =
      extract_loop-Provides unit 0 (nal_spans unit) false false [] sets (nal_spans-Covers unit).0
        e in
    rw whole (reaches types)

-- Once the cache has parameter sets, from whichever access units it observed, each IDR access unit
-- that begins with a start code and has no SPS becomes self-contained by `complete_idr`.
pub is_self_contained_idr-complete_idr :
    (units : List (List ℕ)) (access_unit : List ℕ) (n : ℕ)
    → has_sets (observe_all H264.new units) ≡ true
    → find_start_code access_unit 0 ≡ some (0, n)
    → contains_idr_slice access_unit ≡ true
    → contains_sps access_unit ≡ false
    → is_self_contained_idr (complete_idr (observe_all H264.new units) access_unit) ≡ true
unfolding has_sets complete_idr contains_idr_slice IsExtracted
is_self_contained_idr-complete_idr units au n filled starts idr no_sps =
    let cache = observe_all H264.new units in
    elim (Option-cases cache.sets) [
      | inl empty ↦ absurd (ground arith)
      | inr (sets, full) ↦
          let (unit, extracted) =
            observe_all-IsExtracted H264.new units new-IsExtracted sets full in
          let types : headers (sets ++ au) ≡ headers sets ++ headers au =
            headers-join sets au (starts-Joins au n starts) in
          let has_idr : has 5 (headers au) ≡ true =
            sym (any_of_type-headers 5 au (λ e. absurd (omega arith))) ∙ idr in
          let completed : complete_idr cache au ≡ sets ++ au =
            rw (complete_idr, full, no_sps) refl in
          ap is_self_contained_idr completed
          ∙ is_self_contained_idr-headers (sets ++ au)
          ∙ ap (λ (ts : List ℕ). ordered ts false false) types
          ∙ sets-ordered unit sets (headers au) extracted
          ∙ ordered-both (headers au)
          ∙ has_idr
    ]
