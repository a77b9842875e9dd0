-- ===== src/Auth/Handshake/Trust.antt =====
-- Whom the server lets in.
use sardp.Base.{
  ℕ, ◌≡◌, refl, sym, ap, subst, true, some, List, Result, ok, err, map_err, arith, Option-cases,
  inl, inr,
}
use sardp.Base.Eq.{bytes_eq, bytes_beq_iff}
use sardp.Base.Action.{try, Ends, returns, raises, bind-Ends, if-Ends}
use sardp.Session.ConnectionSm.{complete_authentication, complete_handshake}
use sardp.Session.Messages.{client_hello, server_hello, auth_result}
use sardp.Server.Foreign.{Foreign}
use sardp.Server.ConnError.{HandshakeError, AuthError, read_failed, decode}
use sardp.Auth.{
  Crypto, Exporter, exporter_label, channel_binding_context, compute_exporter, verify_exporter,
}
use sardp.Auth.Binding.{verify_exporter_iff}
use sardp.Auth.Handshake.{
  AuthPubkey, HandshakeCodec, HandshakeOutcome, HandshakeState, ServerRun, check, on_sm,
  write_envelope, Envelope,
}
use sardp.Auth.Handshake.Sides.{
  ServerIdentity, hello_of_server, start, server_handshake, server_hello_phase, server_auth_phase,
  verify_client, conclude,
}

-- The verification succeeds only on the trusted key's signature of the exporter.
verify_client-ok :
    (c : Crypto) (export : Exporter) (trusted : List ℕ) (offered : AuthPubkey) (context : List ℕ)
    → verify_client c export trusted offered context ≡ ok tt
    → (offered.public_key ≡ trusted)
      × (exporter : List ℕ) × (export exporter_label context ≡ some exporter)
      × (c.verify trusted exporter offered.signature ≡ true)
unfolding verify_client compute_exporter
verify_client-ok c export trusted offered context h =
    elim (Option-cases (export exporter_label context)) [
      | inl e ↦ ground (arith, bytes_beq_iff offered.public_key trusted)
      | inr (exporter, e) ↦
          let same : offered.public_key ≡ trusted =
            ground (arith, bytes_beq_iff offered.public_key trusted) in
          let verified : verify_exporter c offered.public_key exporter offered.signature ≡ ok tt =
            ground (arith, bytes_beq_iff offered.public_key trusted) in
          let good =
            (verify_exporter_iff c offered.public_key exporter offered.signature).0 verified in
          (same, exporter, e, subst (λ k. c.verify k exporter offered.signature ≡ true) same good.3)
    ]

module _ (F : Foreign) (c : Crypto) (codec : HandshakeCodec F.cbor_error) (export : Exporter)
    (me : ServerIdentity) (client_hello_bytes : List ℕ) (run : ServerRun F) where
  abbrev context : List ℕ
  context =
      channel_binding_context c client_hello_bytes
        (codec.encode_server_hello (hello_of_server me run.auth_challenge)) run.auth_challenge

  -- What the client's `AuthPubkey` message was decoded to.
  abbrev IsOffered : AuthPubkey → Type 0
  IsOffered offered =
      (type_raw : ℕ) × (payload : List ℕ) × (run.auth_read ≡ ok (type_raw, payload))
      × (codec.decode_auth_pubkey payload ≡ ok offered)

  -- The key that was offered on this connection is the trusted one, and it signed the exporter of
  -- this connection, over the two hellos and the challenge.
  abbrev pub IsProven : HandshakeOutcome → Type 0
  IsProven o =
      (offered : AuthPubkey) × (exporter : List ℕ) × IsOffered offered
      × (offered.public_key ≡ me.trusted)
      × (export exporter_label context ≡ some exporter)
      × (c.verify me.trusted exporter offered.signature ≡ true)
      × (o.user_id ≡ offered.user_id)
      × (o.session_id ≡ run.session_id)

  abbrev Anything : HandshakeError F → HandshakeState → Type 0
  Anything e s = Unit {0}

  Anything-Ends :
      {A : Type 0} (p : HandshakeState × Result (HandshakeError F) A)
      → Ends (λ a s. Unit {0}) Anything p
  Anything-Ends (s, ok a) = returns a s tt
  Anything-Ends (s, err e) = raises e s tt

  read-Ends :
      (r : Envelope F) (s : HandshakeState)
      → run.auth_read ≡ r
      → Ends (λ m t. run.auth_read ≡ ok m) Anything (s, map_err read_failed r)
  read-Ends (ok m) s e = returns m s e
  read-Ends (err x) s e = raises _ s tt

  decoded-Ends :
      (m : ℕ × List ℕ) (d : Result F.cbor_error AuthPubkey) (s : HandshakeState)
      → run.auth_read ≡ ok m
      → codec.decode_auth_pubkey m.1 ≡ d
      → Ends (λ offered t. IsOffered offered) Anything (s, map_err decode d)
  decoded-Ends m (ok offered) s read e = returns offered s (m.0, m.1, read, e)
  decoded-Ends m (err x) s read e = raises _ s tt

  conclude-Ends :
      (offered : AuthPubkey) (v : Result AuthError (Unit {0})) (s : HandshakeState)
      → IsOffered offered
      → verify_client c export me.trusted offered context ≡ v
      → Ends (λ o s. IsProven o) Anything (conclude c codec export me run offered v s)
  unfolding conclude
  conclude-Ends offered (ok tt) s read h =
      let (same, exporter, exported, verified) =
        verify_client-ok c export me.trusted offered context h in
      bind-Ends _ _ (Anything-Ends (on_sm complete_authentication s)) λ u t k.
        bind-Ends _ _ (Anything-Ends (write_envelope auth_result _ run.result_written t))
          λ u' t' k'. returns _ t' (offered, exporter, read, same, exported, verified, refl, refl)
  conclude-Ends offered (err e) s read h =
      bind-Ends _ _ (Anything-Ends (write_envelope auth_result _ run.result_written _))
        λ u t k. raises _ t tt

  server_hello_phase-Ends :
      (s : HandshakeState)
      → Ends
          (λ bytes t. bytes ≡ codec.encode_server_hello (hello_of_server me run.auth_challenge))
          Anything
          (server_hello_phase c codec export me run s)
  unfolding server_hello_phase
  server_hello_phase-Ends s = bind-Ends _ _ (Anything-Ends (check server_hello s)) λ u t k.
      bind-Ends _ _ (Anything-Ends (write_envelope server_hello _ run.hello_written t))
        λ u' t' k'. returns _ t' refl

  -- The second phase gives the message that was read, decoded.
  server_auth_phase-Ends :
      (s : HandshakeState)
      → Ends (λ offered t. IsOffered offered) Anything (server_auth_phase c codec export me run s)
  unfolding server_auth_phase try
  server_auth_phase-Ends s =
      bind-Ends {Q = λ m t. run.auth_read ≡ ok m} _ _ (read-Ends run.auth_read s refl) λ m t read.
        bind-Ends _ _ (Anything-Ends (check m.0 t))
          λ u t' k. decoded-Ends m (codec.decode_auth_pubkey m.1) t' read refl

  server_handshake-Ends :
      Ends
        (λ o s. IsProven o)
        Anything
        (server_handshake c codec export me client_hello_bytes run start)
  unfolding server_handshake
  server_handshake-Ends = bind-Ends _ _ (Anything-Ends (check client_hello start)) λ u s k.
      bind-Ends _ _
        (if-Ends run.hello_elapsed _ _ s (λ e. raises _ s tt) (λ e. server_hello_phase-Ends s))
        λ bytes t same. bind-Ends _ _ (Anything-Ends (on_sm complete_handshake t)) λ u' t' k'.
          bind-Ends _ _
            (if-Ends run.auth_elapsed _ _ t' (λ e. raises _ t' tt) (λ e. server_auth_phase-Ends t'))
            λ offered t'' read. conclude-Ends offered _ t'' read (
              ap
                (λ b.
                  verify_client c export me.trusted offered
                    (channel_binding_context c client_hello_bytes b run.auth_challenge))
                (sym same))

  ok-Ends :
      {A : Type 0} {Q : A → HandshakeState → Type 0}
      (p : HandshakeState × Result (HandshakeError F) A) (a : A)
      → Ends Q Anything p
      → p.1 ≡ ok a
      → Q a p.0
  ok-Ends {Q = Q} p a (returns b s q) h = subst (λ x. Q x s) (let e : b ≡ a = cc in e) q
  ok-Ends p a (raises e s j) h = absurd cc

  -- Whoever is let in: the key in the `AuthPubkey` message that was read is the one that the server
  -- trusts, it has signed the exporter of this very connection, over the two hellos and the
  -- challenge of this handshake, and the user is the one that the message names.
  pub server_handshake-IsProven :
      (o : HandshakeOutcome)
      → (server_handshake c codec export me client_hello_bytes run start).1 ≡ ok o
      → IsProven o
  server_handshake-IsProven o h = ok-Ends _ o server_handshake-Ends h
