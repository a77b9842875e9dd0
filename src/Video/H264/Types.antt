-- ===== src/Video/H264/Types.antt =====
-- The questions that src/h264.rs asks of an access unit, as questions about the types in it.
use sardp.Base.{
  ℕ, zero, suc, ◌-◌, ◌<◌, ◌≡◌, ◌≢◌, refl, ap, sym, ◌∙◌, inl, inr, Bool, true, false, ◌&&◌, ◌||◌,
  List, [], ◌∷◌, map, take, drop, get_or, ◌==◌, if◌then◌else◌, arith, bit_and, Bool-cases,
}
use sardp.Video.H264.{
  nal_unit, nal_spans, any_of_type, self_contained_loop, is_self_contained_idr, split_annex_b,
}
use sardp.Video.H264.Headers.{type_of, keep, headers}
use sardp.Video.H264.Spans.{IsUnit, InOrder, kept, nal_spans-Covers}

abbrev pub has : ℕ → List ℕ → Bool
has t [] = false
has t (u ∷ types) = u == t || has t types

-- An IDR slice comes, and behind both parameter sets.
abbrev pub ordered : List ℕ → Bool → Bool → Bool
ordered [] sps pps = false
ordered (t ∷ types) sps pps =
    let with_sps = ordered types true pps in
    let with_pps = ordered types sps true in
    let without = ordered types sps pps in
    if t == 7 then with_sps else if t == 8 then with_pps else if t == 5 then sps && pps else without

pub first-take : (k : ℕ) (xs : List ℕ) → 0 < k → get_or (take k xs) 0 0 ≡ get_or xs 0 0
first-take zero xs h = absurd (omega arith)
first-take (suc k) [] h = refl
first-take (suc k) (x ∷ xs) h = refl

unit_type :
    (buf : List ℕ) (s n e : ℕ) → n < e → (nal_unit buf (s, n, e)).nal_type ≡ type_of (drop n buf)
unfolding nal_unit
unit_type buf s n e h = ap (λ b. bit_and b 31) (first-take (e - n) (drop n buf) (omega arith))

has-keep : (t u : ℕ) (types : List ℕ) → t ≢ 0 → has t (keep u types) ≡ (u == t || has t types)
has-keep t u types h = elim (Bool-cases (u == 0)) [ inl e ↦ ground arith | inr e ↦ rw e refl ]

ordered-keep :
    (u : ℕ) (types : List ℕ) (sps pps : Bool)
    → ordered (keep u types) sps pps ≡ ordered (u ∷ types) sps pps
ordered-keep u types sps pps = elim (Bool-cases (u == 0)) [
  | inl e ↦ let zero_type : u ≡ 0 = ground arith in rw zero_type refl
  | inr e ↦ rw e refl
]

any_of_type-spans :
    (t low : ℕ) (buf : List ℕ) (spans : List (ℕ × ℕ × ℕ))
    → t ≢ 0
    → InOrder buf low spans
    → any_of_type t (map (nal_unit buf) spans) ≡ has t (kept buf spans)
unfolding any_of_type kept InOrder IsUnit
any_of_type-spans t low buf [] h order = refl
any_of_type-spans t low buf ((s, n, e) ∷ spans) h (after, unit, order) =
    rw (unit_type buf s n e unit.1, any_of_type-spans t e buf spans h order)
      (sym (has-keep t (type_of (drop n buf)) (kept buf spans) h))

self_contained-spans :
    (low : ℕ) (buf : List ℕ) (spans : List (ℕ × ℕ × ℕ)) (sps pps : Bool)
    → InOrder buf low spans
    → self_contained_loop (map (nal_unit buf) spans) sps pps ≡ ordered (kept buf spans) sps pps
unfolding self_contained_loop kept InOrder IsUnit
self_contained-spans low buf [] sps pps order = refl
self_contained-spans low buf ((s, n, e) ∷ spans) sps pps (after, unit, order) =
    let ih = self_contained-spans e buf spans in
    rw (unit_type buf s n e unit.1, ih true pps order, ih sps true order, ih sps pps order)
      (sym (ordered-keep (type_of (drop n buf)) (kept buf spans) sps pps))

pub any_of_type-headers :
    (t : ℕ) (buf : List ℕ) → t ≢ 0 → any_of_type t (split_annex_b buf) ≡ has t (headers buf)
unfolding split_annex_b
any_of_type-headers t buf h =
    let (order, types) = nal_spans-Covers buf in
    any_of_type-spans t 0 buf (nal_spans buf) h order ∙ ap (has t) types

pub is_self_contained_idr-headers :
    (buf : List ℕ) → is_self_contained_idr buf ≡ ordered (headers buf) false false
unfolding is_self_contained_idr split_annex_b
is_self_contained_idr-headers buf =
    let (order, types) = nal_spans-Covers buf in
    self_contained-spans 0 buf (nal_spans buf) false false order
    ∙ ap (λ (ts : List ℕ). ordered ts false false) types
