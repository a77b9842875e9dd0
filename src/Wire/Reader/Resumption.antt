-- ===== src/Wire/Reader/Resumption.antt =====
-- A read that ran out of bytes, and was started again when more had arrived.
use sardp.Base.{
  ℕ, ◌≡◌, refl, sym, ap, ◌∙◌, ◌⊎◌, inl, inr, Option, none, some, List, [], ◌∷◌, ◌++◌, Result, ok,
  err, arith, drop,
}
use sardp.Wire.Envelope
use sardp.Wire.Envelope.{Envelope}
use sardp.Wire.Reader.{
  StreamReadError, EnvelopeReader, read_loop, read_envelope, closed_early, envelope,
  type_and_payload,
}
use sardp.Wire.Reader.Chunks.{read_loop_found}

parse_cases :
    {E B : Type 0} (r : Result E (Option B))
    → (r ≡ ok none) ⊎ ((b : B) × (r ≡ ok (some b))) ⊎ ((e : E) × (r ≡ err e))
parse_cases (ok none) = inl refl
parse_cases (ok (some b)) = inr (inl (b, refl))
parse_cases (err e) = inr (inr (e, refl))

pub result_cases :
    {E B : Type 0} (r : Result E B) → ((b : B) × (r ≡ ok b)) ⊎ ((e : E) × (r ≡ err e))
result_cases (ok b) = inl (b, refl)
result_cases (err e) = inr (e, refl)

module _ {R E A : Type 0} (parse : List ℕ → Result E (Option (A × ℕ)))
    (wrap : E → StreamReadError R) (apart : (e : E) → wrap e ≡ closed_early → ⊥) where
  read_loop-resumes :
      (xs ys : List (Result R (List ℕ))) (buf : List ℕ)
      → (read_loop parse wrap xs buf).1 ≡ err closed_early
      → read_loop parse wrap (xs ++ ys) buf
        ≡ read_loop parse wrap ys (read_loop parse wrap xs buf).0.buf
  unfolding read_loop
  read_loop-resumes [] ys buf h = elim (parse_cases (parse buf)) [
    | inl e ↦ rw e refl
    | inr (inl (b, e)) ↦ absurd (ground arith)
    | inr (inr (e', e)) ↦ absurd (apart e' (ground arith))
  ]
  read_loop-resumes (ok chunk ∷ xs) ys buf h = elim (parse_cases (parse buf)) [
    | inl e ↦ rw e (read_loop-resumes xs ys (buf ++ chunk) (ground arith))
    | inr (inl (b, e)) ↦ absurd (ground arith)
    | inr (inr (e', e)) ↦ absurd (apart e' (ground arith))
  ]
  read_loop-resumes (err x ∷ xs) ys buf h = elim (parse_cases (parse buf)) [
    | inl e ↦ absurd (ground arith)
    | inr (inl (b, e)) ↦ absurd (ground arith)
    | inr (inr (e', e)) ↦ absurd (apart e' (ground arith))
  ]

  read_loop-extends :
      (xs ys : List (Result R (List ℕ))) (buf : List ℕ) (a : A)
      → (read_loop parse wrap xs buf).1 ≡ ok a
      → let left = (read_loop parse wrap xs buf).0 in
        read_loop parse wrap (xs ++ ys) buf ≡ (record left { recv = left.recv ++ ys }, ok a)
  unfolding read_loop
  read_loop-extends [] ys buf a h = elim (parse_cases (parse buf)) [
    | inl e ↦ absurd (ground arith)
    | inr (inl (b, e)) ↦
        let same : b.0 ≡ a = ground arith in
        rw e (
          read_loop_found parse wrap ys buf b.0 b.1 e
          ∙ ap (λ x. (record { recv = ys; buf = drop b.1 buf }, ok x)) same)
    | inr (inr (e', e)) ↦ absurd (ground arith)
  ]
  read_loop-extends (ok chunk ∷ xs) ys buf a h = elim (parse_cases (parse buf)) [
    | inl e ↦ rw e (read_loop-extends xs ys (buf ++ chunk) a (ground arith))
    | inr (inl (b, e)) ↦ rw e (ground arith)
    | inr (inr (e', e)) ↦ absurd (ground arith)
  ]
  read_loop-extends (err x ∷ xs) ys buf a h = elim (parse_cases (parse buf)) [
    | inl e ↦ absurd (ground arith)
    | inr (inl (b, e)) ↦ rw e (ground arith)
    | inr (inr (e', e)) ↦ absurd (ground arith)
  ]

-- The same reader with other reads to come.
abbrev pub on : {R : Type 0} → EnvelopeReader R → List (Result R (List ℕ)) → EnvelopeReader R
on r recv = record r { recv = recv }

module _ {R : Type 0} (max_length : ℕ) (r : EnvelopeReader R) (ys : List (Result R (List ℕ))) where
  pub read_envelope-resumes :
      (read_envelope r max_length).1 ≡ err closed_early
      → read_envelope (on r (r.recv ++ ys)) max_length
        ≡ read_envelope (on (read_envelope r max_length).0 ys) max_length
  unfolding read_envelope
  read_envelope-resumes h =
      let p = read_loop (λ b. Envelope.parse b max_length) envelope r.recv r.buf in
      ap type_and_payload (
        read_loop-resumes (λ b. Envelope.parse b max_length) envelope (λ e k. ground arith) r.recv
          ys r.buf (waits p h))
      ∙ ap (λ b. type_and_payload (read_loop (λ b. Envelope.parse b max_length) envelope ys b))
          (sym (keeps p))
    where
      waits :
          (p : EnvelopeReader R × Result (StreamReadError R) Envelope)
          → (type_and_payload p).1 ≡ err closed_early
          → p.1 ≡ err closed_early
      waits (left, ok a) k = absurd (ground arith)
      waits (left, err e) k = ground arith

      keeps :
          (p : EnvelopeReader R × Result (StreamReadError R) Envelope)
          → (type_and_payload p).0.buf ≡ p.0.buf
      keeps (left, ok a) = refl
      keeps (left, err e) = refl

  pub read_envelope-extends :
      (m : ℕ × List ℕ)
      → (read_envelope r max_length).1 ≡ ok m
      → let left = (read_envelope r max_length).0 in
        read_envelope (on r (r.recv ++ ys)) max_length ≡ (on left (left.recv ++ ys), ok m)
  unfolding read_envelope
  read_envelope-extends m h =
      extends (read_loop (λ b. Envelope.parse b max_length) envelope r.recv r.buf) refl h
    where
      extends :
          (p : EnvelopeReader R × Result (StreamReadError R) Envelope)
          → read_loop (λ b. Envelope.parse b max_length) envelope r.recv r.buf ≡ p
          → (type_and_payload p).1 ≡ ok m
          → type_and_payload
              (read_loop (λ b. Envelope.parse b max_length) envelope (r.recv ++ ys) r.buf)
            ≡ (on (type_and_payload p).0 ((type_and_payload p).0.recv ++ ys), ok m)
      extends (left, ok a) e k =
          ap type_and_payload (
            read_loop-extends (λ b. Envelope.parse b max_length) envelope (λ e k. ground arith)
              r.recv ys r.buf a (ap (λ q. q.1) e))
          ∙ rw e (ap (λ q. (on left (left.recv ++ ys), q)) k)
      extends (left, err e') e k = absurd (ground arith)
