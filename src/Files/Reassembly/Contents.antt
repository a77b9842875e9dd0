-- ===== src/Files/Reassembly/Contents.antt =====
-- What the reassembled bytes are: those of the sender's file, whatever order its chunks came in.
use sardp.Base.{
  ℕ, ◌+◌, ◌-◌, ◌≤◌, ◌≡◌, ◌≢◌, ◌⊎◌, refl, sym, ap, ◌∙◌, subst, inl, inr, true, false, ◌&&◌, List, [],
  ◌∷◌, ◌++◌, ok, length, take, drop, get_or, leb, ltb, arith, Bool-cases,
}
use sardp.Session.Messages.{FileChunk}
use sardp.Files.Reassembly.{FileReassembly, new, overlaps, apply_chunk, copy_into, is_complete}
use sardp.Files.Reassembly.Coverage.{IsIn, AllWithin, covered_iff}
use sardp.Files.Reassembly.Copy.{
  extensionality, length-replicate, get_or-copy_into, length-copy, get_or-take, get_or-drop,
}

-- The chunk carries the bytes that the file has in its place.
abbrev pub IsSlice : List ℕ → FileChunk → Type 0
IsSlice file chunk = chunk.content ≡ take chunk.length (drop chunk.offset file)

pub record Agrees (file : List ℕ) (r : FileReassembly) : Type 0 where
  pub size : r.resolved_size ≡ length file
  pub filled : length r.contents ≡ r.resolved_size
  pub within : AllWithin r.resolved_size r.received_ranges
  pub bytes : (p : ℕ) → IsIn p r.received_ranges → get_or r.contents p 0 ≡ get_or file p 0

IsIn-append : (p : ℕ) (xs ys : List (ℕ × ℕ)) → IsIn p (xs ++ ys) → IsIn p xs ⊎ IsIn p ys
IsIn-append p [] ys h = inr h
IsIn-append p ((o, l) ∷ xs) ys (inl h) = inl (inl h)
IsIn-append p ((o, l) ∷ xs) ys (inr h) = elim (IsIn-append p xs ys h) [
  | inl i ↦ inl (inr i)
  | inr i ↦ inr i
]

pub AllWithin-append :
    (n : ℕ) (xs ys : List (ℕ × ℕ)) → AllWithin n xs → AllWithin n ys → AllWithin n (xs ++ ys)
AllWithin-append n [] ys hx hy = hy
AllWithin-append n ((o, l) ∷ xs) ys hx hy = (hx.0, AllWithin-append n xs ys hx.1 hy)

-- What an accepted chunk satisfies, and what it leaves.
abbrev pub after : FileReassembly → FileChunk → FileReassembly
after r chunk = record r {
  contents = copy_into r.contents chunk.offset (chunk.offset + chunk.length) chunk.content;
  received_ranges = r.received_ranges ++ (chunk.offset, chunk.length) ∷ [];
}

apply_chunk_cases :
    (r : FileReassembly) (chunk : FileChunk)
    → ((apply_chunk r chunk ≡ (after r chunk, ok tt))
        × (length chunk.content ≡ chunk.length)
        × (chunk.offset + chunk.length ≤ r.resolved_size)
        × (overlaps chunk.offset (chunk.offset + chunk.length) r.received_ranges ≡ false))
      ⊎ (((apply_chunk r chunk).0 ≡ r) × ((apply_chunk r chunk).1 ≢ ok tt))
unfolding apply_chunk
apply_chunk_cases r chunk = ground arith

after_bytes :
    (file : List ℕ) (r : FileReassembly) (chunk : FileChunk)
    → IsSlice file chunk
    → length chunk.content ≡ chunk.length
    → chunk.offset + chunk.length ≤ r.resolved_size
    → Agrees file r
    → (p : ℕ) → IsIn p (after r chunk).received_ranges
    → get_or (after r chunk).contents p 0 ≡ get_or file p 0
after_bytes file r chunk slice same fits agrees p i =
    let offset = chunk.offset in
    let copied =
      get_or-copy_into r.contents chunk.content offset chunk.length p same
        (omega (arith, agrees.filled)) in
    elim (Bool-cases (leb offset p && ltb p (offset + chunk.length))) [
      | inl e ↦
          copied
          ∙ rw e (
              ap (λ x. get_or x (p - offset) 0) slice
              ∙ get_or-take chunk.length (p - offset) (drop offset file) (ground arith)
              ∙ get_or-drop offset (p - offset) file
              ∙ ap (λ n. get_or file n 0) (ground arith))
      | inr e ↦
          copied
          ∙ rw e (elim (IsIn-append p r.received_ranges ((offset, chunk.length) ∷ []) i) [
            | inl old ↦ agrees.bytes p old
            | inr (inl new) ↦ ground arith
            | inr (inr none) ↦ absurd none
          ])
    ]

pub after-Agrees :
    (file : List ℕ) (r : FileReassembly) (chunk : FileChunk)
    → IsSlice file chunk
    → length chunk.content ≡ chunk.length
    → chunk.offset + chunk.length ≤ r.resolved_size
    → Agrees file r
    → Agrees file (after r chunk)
after-Agrees file r chunk slice same fits agrees = record {
  size = agrees.size;
  filled =
      length-copy r.contents chunk.content chunk.offset chunk.length same
        (omega (arith, agrees.filled))
      ∙ agrees.filled;
  within =
      AllWithin-append r.resolved_size r.received_ranges ((chunk.offset, chunk.length) ∷ [])
        agrees.within (fits, tt);
  bytes = λ p i. after_bytes file r chunk slice same fits agrees p i;
}

apply_chunk-Agrees :
    (file : List ℕ) (r : FileReassembly) (chunk : FileChunk)
    → IsSlice file chunk
    → Agrees file r
    → Agrees file (apply_chunk r chunk).0
apply_chunk-Agrees file r chunk slice agrees = elim (apply_chunk_cases r chunk) [
  | inl (e, same, fits, free) ↦
      subst (λ x. Agrees file x.0) (sym e) (after-Agrees file r chunk slice same fits agrees)
  | inr (e, refused) ↦ subst (Agrees file) (sym e) agrees
]

-- The receiver's state after some chunks, those that it refused included.
abbrev pub apply_all : FileReassembly → List FileChunk → FileReassembly
apply_all r [] = r
apply_all r (c ∷ chunks) = apply_all (apply_chunk r c).0 chunks

abbrev AllSlices : List ℕ → List FileChunk → Type 0
AllSlices file [] = Unit {0}
AllSlices file (c ∷ chunks) = IsSlice file c × AllSlices file chunks

apply_all-Agrees :
    (file : List ℕ) (r : FileReassembly) (chunks : List FileChunk)
    → AllSlices file chunks
    → Agrees file r
    → Agrees file (apply_all r chunks)
apply_all-Agrees file r [] slices agrees = agrees
apply_all-Agrees file r (c ∷ chunks) slices agrees =
    apply_all-Agrees file (apply_chunk r c).0 chunks slices.1
      (apply_chunk-Agrees file r c slices.0 agrees)

pub new-Agrees : (file : List ℕ) → Agrees file (new (length file))
unfolding new
new-Agrees file = record {
  size = refl;
  filled = length-replicate (length file) 0;
  within = tt;
  bytes = λ p i. absurd i;
}

-- Chunks of a file, in any order and with any number of them refused or missing: once the
-- receiver finds the transfer complete, what it reassembled is the file.
pub complete_is_file :
    (file : List ℕ) (chunks : List FileChunk)
    → AllSlices file chunks
    → is_complete (apply_all (new (length file)) chunks) ≡ true
    → (apply_all (new (length file)) chunks).contents ≡ file
complete_is_file file chunks slices h =
    let r = apply_all (new (length file)) chunks in
    let agrees = apply_all-Agrees file (new (length file)) chunks slices (new-Agrees file) in
    extensionality r.contents file (omega (arith, agrees.filled, agrees.size))
      (λ p low. agrees.bytes p ((covered_iff r agrees.within).0 h p (omega (arith, agrees.size))))
