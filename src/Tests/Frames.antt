-- ===== src/Tests/Frames.antt =====
-- Access units of src/h264.rs: a first one with parameter sets, and a later one without.
use sardp.Base.{ℕ, ◌≡◌, refl, true, List, [], ◌∷◌}
use sardp.Video.H264.{
  start_code_at, find_from, find_start_code, spans_from, nal_spans, nal_unit, split_annex_b,
  nal_unit_types, any_of_type, contains_idr_slice, contains_sps, extract_loop,
  extract_parameter_sets, self_contained_loop, is_self_contained_idr, has_sets, observe,
  complete_idr,
}
use sardp.Video.H264
use sardp.Video.H264.Headers.{headers}
use sardp.Video.H264.Spans.{InOrder, kept, nal_spans-Covers}
use sardp.Video.H264.SelfContained.{observe_all, is_self_contained_idr-complete_idr}

-- SPS, PPS and an IDR slice, behind start codes of both kinds.
abbrev first_idr : List ℕ
first_idr = 0 ∷ 0 ∷ 0 ∷ 1 ∷ 0x67 ∷ 66 ∷ 0 ∷ 0 ∷ 1 ∷ 0x68 ∷ 206 ∷ 0 ∷ 0 ∷ 1 ∷ 0x65 ∷ 136 ∷ []

abbrev later_idr : List ℕ
later_idr = 0 ∷ 0 ∷ 1 ∷ 0x65 ∷ 132 ∷ []

later_is_bare : is_self_contained_idr later_idr ≡ H264.has_sets H264.new
unfolding start_code_at find_from find_start_code spans_from nal_spans nal_unit split_annex_b
    self_contained_loop is_self_contained_idr has_sets H264.new
later_is_bare = refl

first_types : nal_unit_types first_idr ≡ 7 ∷ 8 ∷ 5 ∷ []
unfolding start_code_at find_from find_start_code spans_from nal_spans nal_unit split_annex_b
    nal_unit_types
first_types = refl

is_self_contained_idr-complete_idr_example :
    is_self_contained_idr (complete_idr (observe_all H264.new (first_idr ∷ [])) later_idr) ≡ true
unfolding start_code_at find_from find_start_code spans_from nal_spans nal_unit split_annex_b
    any_of_type contains_idr_slice contains_sps extract_loop extract_parameter_sets observe has_sets
    H264.new
is_self_contained_idr-complete_idr_example =
    is_self_contained_idr-complete_idr (first_idr ∷ []) later_idr 3 refl refl refl refl

nal_spans-Covers_example :
    InOrder first_idr 0 (nal_spans first_idr)
    × (kept first_idr (nal_spans first_idr) ≡ headers first_idr)
nal_spans-Covers_example = nal_spans-Covers first_idr
