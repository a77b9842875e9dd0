-- ===== src/Auth/Binding.antt =====
-- What a signature is bound to.
use sardp.Base.{ℕ, ◌≡◌, ◌↔◌, refl, sym, ap, ◌∙◌, true, List, [], ◌∷◌, ◌++◌, ok, length, drop, arith}
use sardp.Auth.{Crypto, context_prefix, channel_binding_context, sign_exporter, verify_exporter}

-- Lists with fronts of one length.
append_same :
    (xs ys us vs : List ℕ) → length xs ≡ length us → xs ++ ys ≡ us ++ vs → (xs ≡ us) × (ys ≡ vs)
append_same [] ys [] vs h e = (refl, e)
append_same [] ys (u ∷ us) vs h e = absurd (omega arith)
append_same (x ∷ xs) ys [] vs h e = absurd (omega arith)
append_same (x ∷ xs) ys (u ∷ us) vs h e =
    let (front, back) = append_same xs ys us vs (omega arith) (ap (drop 1) e) in
    let head : x ≡ u = cc in (cc, back)

module _ (c : Crypto) where
  -- One context belongs to one pair of hellos, by their digests, and to one challenge.
  pub context_binds :
      (client server challenge client' server' challenge' : List ℕ)
      → channel_binding_context c client server challenge
        ≡ channel_binding_context c client' server' challenge'
      → (c.sha256 client ≡ c.sha256 client')
        × (c.sha256 server ≡ c.sha256 server')
        × (challenge ≡ challenge')
  unfolding channel_binding_context
  context_binds client server challenge client' server' challenge' e =
      let same = λ (a b : List ℕ). c.length-sha256 a ∙ sym (c.length-sha256 b) in
      let (prefix, hashes) = append_same context_prefix _ context_prefix _ refl e in
      let (first, rest) =
        append_same (c.sha256 client) (c.sha256 server ++ challenge) (c.sha256 client')
          (c.sha256 server' ++ challenge') (same client client') hashes in
      let (second, last) =
        append_same (c.sha256 server) challenge (c.sha256 server') challenge' (same server server')
          rest in
      (first, second, last)

  -- What a key signs is verified under it.
  pub verify-sign_exporter :
      (key : c.signing_key) (exporter : List ℕ)
      → verify_exporter c (c.verifying_key key) exporter (sign_exporter c key exporter) ≡ ok tt
  unfolding verify_exporter sign_exporter
  verify-sign_exporter key exporter = rw (
    c.length-verifying_key key,
    c.verifying_key-IsWellFormed key,
    c.length-sign key exporter,
    c.verify-sign key exporter,
  )

  -- What is verified is a well formed signature of the exporter under a well formed key.
  pub verify_exporter_iff :
      (key exporter signature : List ℕ)
      → (verify_exporter c key exporter signature ≡ ok tt) ↔ (
          (length key ≡ 32)
          × (c.is_well_formed key ≡ true)
          × (length signature ≡ 64)
          × (c.verify key exporter signature ≡ true))
  unfolding verify_exporter
  verify_exporter_iff key exporter signature = (λ h. ground arith, λ h. ground arith)
