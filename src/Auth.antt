-- ===== src/Auth.antt =====
-- src/auth.rs: the channel binding that is signed, and its verification. The cryptography and the
-- TLS exporter are libraries', the parameter.
pub mod Binding
pub mod Handshake
use sardp.Base.{
  ℕ, ◌≡◌, Bool, true, not, Option, none, some, List, [], ◌∷◌, ◌++◌, Result, ok, err, length, ◌==◌,
  if◌then◌else◌,
}
use sardp.Server.ConnError.{AuthError, export_keying_material_failed, signature_invalid}

abbrev exporter_length : ℕ
exporter_length = 32

-- The bytes of "SARDP-auth-v1" and of "EXPORTER-SARDP-auth-v1".
abbrev pub context_prefix : List ℕ
context_prefix = 83 ∷ 65 ∷ 82 ∷ 68 ∷ 80 ∷ 45 ∷ 97 ∷ 117 ∷ 116 ∷ 104 ∷ 45 ∷ 118 ∷ 49 ∷ []

abbrev pub exporter_label : List ℕ
exporter_label = 69 ∷ 88 ∷ 80 ∷ 79 ∷ 82 ∷ 84 ∷ 69 ∷ 82 ∷ 45 ∷ context_prefix

-- SHA-256, and Ed25519 with its keys as they are stored; the documented behaviour: a digest has 32
-- bytes, a public key 32, a signature 64, a public key that was derived is well formed, and a
-- signature verifies under the key of its signer.
pub record Crypto : Type 1 where
  pub sha256 : List ℕ → List ℕ
  pub length-sha256 : (bytes : List ℕ) → length (sha256 bytes) ≡ 32
  pub signing_key : Type 0
  pub verifying_key : signing_key → List ℕ
  pub sign : signing_key → List ℕ → List ℕ
  pub is_well_formed : List ℕ → Bool
  pub verify : List ℕ → List ℕ → List ℕ → Bool
  pub length-verifying_key : (key : signing_key) → length (verifying_key key) ≡ 32
  pub length-sign : (key : signing_key) (message : List ℕ) → length (sign key message) ≡ 64
  pub verifying_key-IsWellFormed : (key : signing_key) → is_well_formed (verifying_key key) ≡ true
  pub verify-sign :
      (key : signing_key) (message : List ℕ)
      → verify (verifying_key key) message (sign key message) ≡ true

-- `export_keying_material` of one connection: label and context to 32 bytes, the same at both of
-- its ends.
abbrev pub Exporter : Type 0
Exporter = List ℕ → List ℕ → Option (List ℕ)

module _ (c : Crypto) where
  unfoldable pub channel_binding_context : List ℕ → List ℕ → List ℕ → List ℕ
  channel_binding_context client_hello_bytes server_hello_bytes auth_challenge =
      context_prefix
      ++ (c.sha256 client_hello_bytes ++ (c.sha256 server_hello_bytes ++ auth_challenge))

  unfoldable pub sign_exporter : c.signing_key → List ℕ → List ℕ
  sign_exporter key exporter = c.sign key exporter

  unfoldable pub verify_exporter : List ℕ → List ℕ → List ℕ → Result AuthError (Unit {0})
  verify_exporter public_key_bytes exporter signature_bytes =
      if not (length public_key_bytes == 32)
      then err signature_invalid
      else if not (c.is_well_formed public_key_bytes)
      then err signature_invalid
      else if not (length signature_bytes == 64)
      then err signature_invalid
      else if c.verify public_key_bytes exporter signature_bytes
      then ok tt
      else err signature_invalid

unfoldable pub compute_exporter : Exporter → List ℕ → Result AuthError (List ℕ)
compute_exporter export context = elim (export exporter_label context) [
  | none ↦ err export_keying_material_failed
  | some out ↦ ok out
]
