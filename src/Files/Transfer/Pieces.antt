-- ===== src/Files/Transfer/Pieces.antt =====
-- One chunk of the sender, in the hands of a receiver that has all before it.
use sardp.Base.{
  ℕ, zero, suc, ◌+◌, ◌-◌, ◌*◌, ◌%◌, ◌^◌, ◌≤◌, ◌<◌, min, max, ◌≡◌, refl, sym, ap, ◌∙◌, inl, inr,
  false, List, [], ◌∷◌, ◌++◌, ok, length, take, drop, length-take, length-drop, take_over, leb, ltb,
  arith, Bool-cases,
}
use sardp.Base.Eq.{bytes_eq}
use sardp.Session.Messages.{FileChunk}
use sardp.Files.Reassembly.{FileReassembly, new, overlaps, apply_chunk}
use sardp.Files.Reassembly.Coverage.{IsIn, AllWithin}
use sardp.Files.Reassembly.Contents.{
  Agrees, IsSlice, after, after-Agrees, new-Agrees, AllWithin-append,
}

-- The receiver has the first `done` bytes of the file, and nothing behind them.
pub record Progress (file : List ℕ) (r : FileReassembly) (done : ℕ) : Type 0 where
  pub agrees : Agrees file r
  pub covered : (p : ℕ) → p < done → IsIn p r.received_ranges
  pub before : AllWithin done r.received_ranges

overlaps-before :
    (done end : ℕ) (ranges : List (ℕ × ℕ))
    → AllWithin done ranges
    → overlaps done end ranges ≡ false
unfolding overlaps
overlaps-before done end [] h = refl
overlaps-before done end ((o, l) ∷ ranges) h = ground (arith, overlaps-before done end ranges h.1)

IsIn-front : (p : ℕ) (xs ys : List (ℕ × ℕ)) → IsIn p xs → IsIn p (xs ++ ys)
IsIn-front p [] ys h = absurd h
IsIn-front p ((o, l) ∷ xs) ys (inl h) = inl h
IsIn-front p ((o, l) ∷ xs) ys (inr h) = inr (IsIn-front p xs ys h)

IsIn-back : (p : ℕ) (xs ys : List (ℕ × ℕ)) → IsIn p ys → IsIn p (xs ++ ys)
IsIn-back p [] ys h = h
IsIn-back p ((o, l) ∷ xs) ys h = inr (IsIn-back p xs ys h)

AllWithin-later :
    (low high : ℕ) (ranges : List (ℕ × ℕ))
    → low ≤ high
    → AllWithin low ranges
    → AllWithin high ranges
AllWithin-later low high [] h a = tt
AllWithin-later low high ((o, l) ∷ ranges) h a =
    (omega arith, AllWithin-later low high ranges h a.1)

-- The next chunk in order is accepted, and advances the receiver by its bytes.
module _ (file : List ℕ) (r : FileReassembly) (chunk : FileChunk)
    (progress : Progress file r chunk.offset) (slice : IsSlice file chunk)
    (same : length chunk.content ≡ chunk.length) (fits : chunk.offset + chunk.length ≤ length file)
    (small : length file < 2 ^ 64) where
  pub next_accepted : apply_chunk r chunk ≡ (after r chunk, ok tt)
  unfolding apply_chunk
  next_accepted = ground (
    arith,
    progress.agrees.size,
    overlaps-before chunk.offset (chunk.offset + chunk.length) r.received_ranges progress.before,
  )

  pub next_Progress : Progress file (after r chunk) (chunk.offset + chunk.length)
  next_Progress = record {
    agrees =
        after-Agrees file r chunk slice same (omega (arith, progress.agrees.size)) progress.agrees;
    covered = λ p h. elim (Bool-cases (ltb p chunk.offset)) [
      | inl e ↦
          IsIn-front p r.received_ranges ((chunk.offset, chunk.length) ∷ [])
            (progress.covered p (ground arith))
      | inr e ↦
          IsIn-back p r.received_ranges ((chunk.offset, chunk.length) ∷ []) (inl (ground arith, h))
    ];
    before =
        AllWithin-append (chunk.offset + chunk.length) r.received_ranges
          ((chunk.offset, chunk.length) ∷ [])
          (AllWithin-later chunk.offset (chunk.offset + chunk.length) r.received_ranges
            (omega arith) progress.before)
          (omega arith, tt);
  }

drop_nil : (n : ℕ) → ◌≡◌ {A = List ℕ} (drop n []) []
drop_nil zero = refl
drop_nil (suc n) = refl

drop-drop : (m n : ℕ) (xs : List ℕ) → drop m (drop n xs) ≡ drop (n + m) xs
drop-drop m zero xs = ap (λ i. drop i xs) (omega arith)
drop-drop m (suc n) [] = drop_nil m ∙ sym (drop_nil (suc n + m))
drop-drop m (suc n) (x ∷ xs) =
    drop-drop m n xs ∙ ap (λ i. drop i (x ∷ xs)) {x = suc (n + m)} (omega arith)

take-min : (n : ℕ) (xs : List ℕ) → take (min n (length xs)) xs ≡ take n xs
take-min n xs = elim (Bool-cases (leb n (length xs))) [
  | inl e ↦ ap (λ i. take i xs) (ground arith)
  | inr e ↦
      ap (λ i. take i xs) {y = length xs} (ground arith)
      ∙ take_over (length xs) xs (omega arith)
      ∙ sym (take_over n xs (ground arith))
]

-- The chunk that the sender makes of what is left of the file from its index on.
abbrev pub piece : ℕ → ℕ → List ℕ → FileChunk
piece index chunk_size rest = record {
  offset = index * chunk_size % 2 ^ 64;
  length = length (take (max chunk_size 1) rest) % 2 ^ 32;
  content = take (max chunk_size 1) rest;
}

module _ (file rest : List ℕ) (index chunk_size : ℕ) (small : length file < 2 ^ 64)
    (some_bytes : 0 < chunk_size) (chunk_small : chunk_size < 2 ^ 32) (left : 0 < length rest)
    (e : rest ≡ drop (index * chunk_size) file) where
  pub remaining : length rest ≡ length file - index * chunk_size
  remaining = ap length e ∙ length-drop (index * chunk_size) file

  pub offset-piece : (piece index chunk_size rest).offset ≡ index * chunk_size
  offset-piece = omega (arith, remaining)

  pub length-piece : (piece index chunk_size rest).length ≡ min chunk_size (length rest)
  length-piece = omega (arith, length-take (max chunk_size 1) rest)

  pub same-piece :
      length (piece index chunk_size rest).content ≡ (piece index chunk_size rest).length
  same-piece = omega (arith, length-take (max chunk_size 1) rest)

  pub piece-IsSlice : IsSlice file (piece index chunk_size rest)
  piece-IsSlice =
      ap (λ n. take n rest) {y = chunk_size} (omega arith)
      ∙ sym (take-min chunk_size rest)
      ∙ ap (λ n. take n rest) (sym length-piece)
      ∙ ap (λ xs. take (piece index chunk_size rest).length xs)
          (e ∙ ap (λ n. drop n file) (sym offset-piece))

  pub next_index : suc index * chunk_size ≡ index * chunk_size + chunk_size
  next_index = omega arith

  pub drop-piece : drop (max chunk_size 1) rest ≡ drop (suc index * chunk_size) file
  drop-piece =
      ap (λ n. drop n rest) {y = chunk_size} (omega arith)
      ∙ ap (drop chunk_size) e
      ∙ drop-drop chunk_size (index * chunk_size) file
      ∙ ap (λ n. drop n file) (sym next_index)

pub new-Progress : (file : List ℕ) → Progress file (new (length file)) 0
unfolding new
new-Progress file = record {
  agrees = new-Agrees file;
  covered = λ p h. absurd (omega arith);
  before = tt;
}
