-- ===== src/Video/H264/Spans.antt =====
-- The units of src/h264.rs: where they lie in the buffer, and that the loop finds them all.
use sardp.Base.{
  ℕ, zero, suc, ◌+◌, ◌-◌, ◌≤◌, ◌<◌, ◌≡◌, refl, ap, sym, subst, ◌∙◌, inl, inr, false, none, some,
  List, [], ◌∷◌, length, take, drop, ltb, lt→ltb, arith, Option-cases, Bool-cases, length-drop,
}
use sardp.Video.H264.{find_start_code, spans_from, nal_spans, slice}
use sardp.Video.H264.Headers.{
  type_of, keep, headers, headers_behind, Opens, At, headers-none, find_from-At,
}

-- A start code at `s`, then bytes from `n` to `e` in which no other one stands.
unfoldable pub IsUnit : List ℕ → ℕ × ℕ × ℕ → Type 0
IsUnit buf (s, n, e) =
    (s + 3 ≤ n)
    × (n < e)
    × (e ≤ length buf)
    × Opens (drop s buf) (n - s) (drop n buf)
    × (headers (slice buf n e) ≡ [])

-- Units one behind the other, from `low` on.
unfoldable pub InOrder : List ℕ → ℕ → List (ℕ × ℕ × ℕ) → Type 0
InOrder buf low [] = Unit
InOrder buf low (span ∷ spans) = (low ≤ span.0) × IsUnit buf span × InOrder buf span.2 spans

-- The types of the spans but for 0.
unfoldable pub kept : List ℕ → List (ℕ × ℕ × ℕ) → List ℕ
kept buf [] = []
kept buf ((s, n, e) ∷ spans) = keep (type_of (drop n buf)) (kept buf spans)

abbrev Covers : List ℕ → ℕ → ℕ → List (ℕ × ℕ × ℕ) → Type 0
Covers buf low nal spans = InOrder buf low spans × (kept buf spans ≡ headers_behind (drop nal buf))

-- The rounds of the loop.
module _ (fuel : ℕ) (buf : List ℕ) (sc nal : ℕ) where
  round_last :
      find_start_code buf nal ≡ none
      → nal < length buf
      → spans_from (suc fuel) buf sc nal ≡ (sc, nal, length buf) ∷ []
  unfolding spans_from
  round_last e h = rw (spans_from, e) (ground arith)

  round_empty :
      find_start_code buf nal ≡ none → length buf ≤ nal → spans_from (suc fuel) buf sc nal ≡ []
  unfolding spans_from
  round_empty e h = rw (spans_from, e) (ground arith)

  round_unit :
      (s n : ℕ)
      → find_start_code buf nal ≡ some (s, n)
      → nal < s
      → spans_from (suc fuel) buf sc nal ≡ (sc, nal, s) ∷ spans_from fuel buf s n
  unfolding spans_from
  round_unit s n e h = rw (spans_from, e) (rw (lt→ltb nal s h) refl)

  round_skip :
      (s n : ℕ)
      → find_start_code buf nal ≡ some (s, n)
      → s ≤ nal
      → spans_from (suc fuel) buf sc nal ≡ spans_from fuel buf s n
  unfolding spans_from
  round_skip s n e h =
      let skip : ltb nal s ≡ false = ground arith in rw (spans_from, e) (rw skip refl)

drop-nil : (n : ℕ) → drop {A = ℕ} n [] ≡ []
drop-nil zero = refl
drop-nil (suc n) = refl

drop-drop : (n j : ℕ) (xs : List ℕ) → drop j (drop n xs) ≡ drop (n + j) xs
drop-drop zero j xs = ap (λ (m : ℕ). drop m xs) (omega arith)
drop-drop (suc n) j [] = drop-nil j ∙ sym (drop-nil (suc n + j))
drop-drop (suc n) j (x ∷ xs) =
    drop-drop n j xs
    ∙ ap (λ (m : ℕ). drop m (x ∷ xs)) {x = suc (n + j)} {y = suc n + j} (omega arith)

take-whole : (n : ℕ) (xs : List ℕ) → length xs ≤ n → take n xs ≡ xs
take-whole zero [] h = refl
take-whole zero (x ∷ xs) h = absurd (omega arith)
take-whole (suc n) [] h = refl
take-whole (suc n) (x ∷ xs) h = ap (◌∷◌ x) (take-whole n xs (omega arith))

drop-whole : (n : ℕ) (xs : List ℕ) → length xs ≤ n → drop n xs ≡ []
drop-whole zero [] h = refl
drop-whole zero (x ∷ xs) h = absurd (omega arith)
drop-whole (suc n) [] h = refl
drop-whole (suc n) (x ∷ xs) h = drop-whole n xs (omega arith)

at_end :
    (fuel : ℕ) (buf : List ℕ) (low sc nal : ℕ)
    → find_start_code buf nal ≡ none
    → nal ≤ length buf
    → low ≤ sc
    → sc + 3 ≤ nal
    → Opens (drop sc buf) (nal - sc) (drop nal buf)
    → Covers buf low nal (spans_from (suc fuel) buf sc nal)
unfolding find_start_code InOrder IsUnit kept headers_behind headers
at_end fuel buf low sc nal e inside after wide opens =
    let empty : headers (drop nal buf) ≡ [] = headers-none nal (drop nal buf) e in
    elim (Bool-cases (ltb nal (length buf))) [
      | inl h ↦
          let more : nal < length buf = ground arith in
          let whole =
            take-whole (length buf - nal) (drop nal buf) (omega (arith, length-drop nal buf)) in
          rw (round_last fuel buf sc nal e more) (
            (after, (wide, more, omega arith, opens, ap headers whole ∙ empty), tt),
            ap (keep (type_of (drop nal buf))) (sym empty),
          )
      | inr h ↦
          let done : length buf ≤ nal = ground arith in
          rw (round_empty fuel buf sc nal e done, drop-whole nal buf done, headers) (tt, refl)
    ]

-- No unit begins where the next start code does.
type_of-Opens : (bytes : List ℕ) (k : ℕ) (rest : List ℕ) → Opens bytes k rest → type_of bytes ≡ 0
unfolding Opens
type_of-Opens bytes k rest (inl (ek, e)) = rw e refl
type_of-Opens bytes k rest (inr (ek, e)) = rw e refl

Opens-width : (bytes : List ℕ) (k : ℕ) (rest : List ℕ) → Opens bytes k rest → 3 ≤ k
unfolding Opens
Opens-width bytes k rest (inl (ek, e)) = omega arith
Opens-width bytes k rest (inr (ek, e)) = omega arith

-- A start code that was found, with offsets in the whole buffer.
pub code_found :
    (buf : List ℕ) (nal s n : ℕ)
    → find_start_code buf nal ≡ some (s, n)
    → nal ≤ length buf
    → (nal ≤ s)
      × (s + 3 ≤ n)
      × (n ≤ length buf)
      × (headers (drop nal buf) ≡ headers_behind (drop n buf))
      × (headers (slice buf nal s) ≡ [])
      × Opens (drop s buf) (n - s) (drop n buf)
unfolding find_start_code At
code_found buf nal s n e inside =
    let (j, k, es, en, (bound, behind, front, opened)) = find_from-At nal (drop nal buf) s n e in
    let at_n : drop (j + k) (drop nal buf) ≡ drop n buf =
      drop-drop nal (j + k) buf ∙ ap (λ (m : ℕ). drop m buf) (omega arith) in
    let at_s : drop j (drop nal buf) ≡ drop s buf =
      drop-drop nal j buf ∙ ap (λ (m : ℕ). drop m buf) (omega arith) in
    let wide : (n - s) ≡ k = omega arith in
    let near : (s - nal) ≡ j = omega arith in
    let three = Opens-width _ k _ opened in
    (
      omega arith,
      omega arith,
      omega (arith, length-drop nal buf),
      behind ∙ ap headers_behind at_n,
      ap (λ (m : ℕ). headers (take m (drop nal buf))) near ∙ front,
      rw (wide, sym at_n, sym at_s) opened,
    )

spans_lem :
    (fuel : ℕ) (buf : List ℕ) (low sc nal : ℕ)
    → length buf < fuel + nal
    → nal ≤ length buf
    → low ≤ sc
    → sc + 3 ≤ nal
    → Opens (drop sc buf) (nal - sc) (drop nal buf)
    → Covers buf low nal (spans_from fuel buf sc nal)
unfolding InOrder IsUnit kept headers_behind
spans_lem zero buf low sc nal enough inside after wide opens = absurd (omega arith)
spans_lem (suc fuel) buf low sc nal enough inside after wide opens =
    elim (Option-cases (find_start_code buf nal)) [
      | inl e ↦ at_end fuel buf low sc nal e inside after wide opens
      | inr ((s, n), e) ↦
          let (near, long, bound, behind, front, opened) = code_found buf nal s n e inside in
          elim (Bool-cases (ltb nal s)) [
            | inl h ↦
                let more : nal < s = ground arith in
                let (order, types) =
                  spans_lem fuel buf s s n (omega arith) bound (omega arith) long opened in
                rw (round_unit fuel buf sc nal s n e more) (
                  (after, (wide, more, omega arith, opens, front), order),
                  ap (keep (type_of (drop nal buf))) (types ∙ sym behind),
                )
            | inr h ↦
                let skip : s ≡ nal = ground arith in
                let (order, types) =
                  spans_lem fuel buf low s n (omega arith) bound (omega arith) long opened in
                let nothing : type_of (drop nal buf) ≡ 0 =
                  subst (λ (m : ℕ). type_of (drop m buf) ≡ 0) skip
                    (type_of-Opens (drop s buf) (n - s) (drop n buf) opened) in
                rw (round_skip fuel buf sc nal s n e (omega arith))
                  (order, types ∙ sym behind ∙ rw (headers_behind, nothing) refl)
          ]
    ]

-- The units lie one behind the other within the buffer, each with at least one byte behind its
-- start code, so that none of the slices and indices of the source is out of range; and their
-- types are those of the bytes behind 0, 0, 1, in the same order, but for the type 0.
pub nal_spans-Covers :
    (buf : List ℕ) → InOrder buf 0 (nal_spans buf) × (kept buf (nal_spans buf) ≡ headers buf)
unfolding nal_spans InOrder kept find_start_code
nal_spans-Covers buf = elim (Option-cases (find_start_code buf 0)) [
  | inl e ↦ rw (nal_spans, e) (tt, sym (headers-none 0 buf e))
  | inr ((s, n), e) ↦
      let (near, long, bound, behind, front, opened) = code_found buf 0 s n e (omega arith) in
      let (order, types) =
        spans_lem (length buf) buf 0 s n (omega arith) bound (omega arith) long opened in
      rw (nal_spans, e) (order, types ∙ sym behind)
]
