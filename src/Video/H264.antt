-- ===== src/Video/H264.antt =====
-- src/h264.rs: NAL units between start codes, and the parameter sets that make an IDR frame
-- decodable alone.
pub mod Headers
pub mod Spans
pub mod Types
pub mod SelfContained
use sardp.Base.{
  ℕ, zero, suc, ◌+◌, ◌-◌, Bool, true, false, not, ◌&&◌, ◌||◌, Option, none, some, List, [], ◌∷◌,
  ◌++◌, map, length, take, drop, get_or, ltb, ◌==◌, if◌then◌else◌, bit_and,
}

pub record NalUnit : Type 0 where
  pub nal_type : ℕ
  pub bytes : List ℕ

abbrev nal_type_slice_idr : ℕ
nal_type_slice_idr = 5

abbrev nal_type_sps : ℕ
nal_type_sps = 7

abbrev nal_type_pps : ℕ
nal_type_pps = 8

-- How many bytes the start code has that a suffix of the buffer begins with, if it has one.
unfoldable pub start_code_at : List ℕ → Option ℕ
start_code_at (a ∷ b ∷ c ∷ rest) =
    if a == 0 && b == 0
    then if c == 1 then some 3 else if c == 0 && get_or rest 0 0 == 1 then some 4 else none
    else none
start_code_at bytes = none

-- The loop over the offsets, with the bytes from there on.
unfoldable pub find_from : ℕ → List ℕ → Option (ℕ × ℕ)
find_from i [] = none
find_from i (b ∷ bytes) =
    let later = find_from (suc i) bytes in
    elim (start_code_at (b ∷ bytes)) [ some n ↦ some (i, i + n) | none ↦ later ]

unfoldable pub find_start_code : List ℕ → ℕ → Option (ℕ × ℕ)
find_start_code buf from = find_from from (drop from buf)

-- The loop of `nal_spans`: each round goes on behind one more start code.
unfoldable pub spans_from : ℕ → List ℕ → ℕ → ℕ → List (ℕ × ℕ × ℕ)
spans_from zero buf sc_start nal_start = []
spans_from (suc fuel) buf sc_start nal_start = elim (find_start_code buf nal_start) [
  | none ↦ if ltb nal_start (length buf) then (sc_start, nal_start, length buf) ∷ [] else []
  | some next ↦
      let rest = spans_from fuel buf next.0 next.1 in
      if ltb nal_start next.0 then (sc_start, nal_start, next.0) ∷ rest else rest
]

unfoldable pub nal_spans : List ℕ → List (ℕ × ℕ × ℕ)
nal_spans buf = elim (find_start_code buf 0) [
  | none ↦ []
  | some first ↦ spans_from (length buf) buf first.0 first.1
]

-- `&buf[start..end]`, for `start ≤ end` within the buffer.
abbrev pub slice : List ℕ → ℕ → ℕ → List ℕ
slice buf start end = take (end - start) (drop start buf)

unfoldable pub nal_unit : List ℕ → ℕ × ℕ × ℕ → NalUnit
nal_unit buf (sc_start, nal_start, end) =
    let bytes = slice buf nal_start end in
    record { nal_type = bit_and (get_or bytes 0 0) 31; bytes = bytes }

unfoldable pub split_annex_b : List ℕ → List NalUnit
split_annex_b buf = map (nal_unit buf) (nal_spans buf)

unfoldable pub nal_unit_types : List ℕ → List ℕ
nal_unit_types buf = map (λ (u : NalUnit). u.nal_type) (split_annex_b buf)

-- `Iterator::any` on the type of a unit.
unfoldable pub any_of_type : ℕ → List NalUnit → Bool
any_of_type nal_type [] = false
any_of_type nal_type (u ∷ units) = u.nal_type == nal_type || any_of_type nal_type units

unfoldable pub contains_idr_slice : List ℕ → Bool
contains_idr_slice buf = any_of_type nal_type_slice_idr (split_annex_b buf)

unfoldable pub contains_sps : List ℕ → Bool
contains_sps buf = any_of_type nal_type_sps (split_annex_b buf)

unfoldable is_idr_access_unit : List ℕ → Bool → Bool
is_idr_access_unit buf encoder_keyframe_flag = encoder_keyframe_flag || contains_idr_slice buf

-- The loop of `extract_parameter_sets`, over `sps`, `pps` and `out`.
unfoldable pub extract_loop : List ℕ → List (ℕ × ℕ × ℕ) → Bool → Bool → List ℕ → Option (List ℕ)
extract_loop buf [] sps pps out = if sps && pps then some out else none
extract_loop buf ((sc_start, nal_start, end) ∷ spans) sps pps out =
    let nal_type = bit_and (get_or buf nal_start 0) 31 in
    let copied = out ++ slice buf sc_start end in
    let with_sps = extract_loop buf spans true pps copied in
    let with_pps = extract_loop buf spans sps true copied in
    let without = extract_loop buf spans sps pps out in
    if nal_type == nal_type_sps
    then with_sps
    else if nal_type == nal_type_pps
    then with_pps
    else without

unfoldable pub extract_parameter_sets : List ℕ → Option (List ℕ)
extract_parameter_sets buf = extract_loop buf (nal_spans buf) false false []

-- The loop of `is_self_contained_idr`, over `seen_sps` and `seen_pps`.
unfoldable pub self_contained_loop : List NalUnit → Bool → Bool → Bool
self_contained_loop [] seen_sps seen_pps = false
self_contained_loop (u ∷ units) seen_sps seen_pps =
    if u.nal_type == nal_type_sps
    then self_contained_loop units true seen_pps
    else if u.nal_type == nal_type_pps
    then self_contained_loop units seen_sps true
    else if u.nal_type == nal_type_slice_idr
    then seen_sps && seen_pps
    else self_contained_loop units seen_sps seen_pps

unfoldable pub is_self_contained_idr : List ℕ → Bool
is_self_contained_idr buf = self_contained_loop (split_annex_b buf) false false

pub record ParameterSetCache : Type 0 where
  pub sets : Option (List ℕ)

unfoldable pub new : ParameterSetCache
new = record { sets = none }

unfoldable pub has_sets : ParameterSetCache → Bool
has_sets cache = elim cache.sets [ none ↦ false | some sets ↦ true ]

unfoldable pub observe : ParameterSetCache → List ℕ → ParameterSetCache × Bool
observe cache access_unit =
    let observed : ParameterSetCache = elim cache.sets [
      | none ↦ record cache { sets = extract_parameter_sets access_unit }
      | some sets ↦ cache
    ] in
    (observed, has_sets observed)

unfoldable set_fallback : ParameterSetCache → List ℕ → ParameterSetCache
set_fallback cache [] = cache
set_fallback cache (b ∷ bs) = elim cache.sets [
  | none ↦ record cache { sets = some (b ∷ bs) }
  | some sets ↦ cache
]

unfoldable pub complete_idr : ParameterSetCache → List ℕ → List ℕ
complete_idr cache access_unit = elim cache.sets [
  | none ↦ access_unit
  | some sets ↦ if not (contains_sps access_unit) then sets ++ access_unit else access_unit
]
