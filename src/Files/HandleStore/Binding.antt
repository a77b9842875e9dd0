-- ===== src/Files/HandleStore/Binding.antt =====
-- A handle is good for what it was issued for, and for nothing else.
use sardp.Base.{
  ℕ, ◌+◌, ◌%◌, ◌^◌, ◌≤◌, ◌≡◌, ◌≢◌, ◌↔◌, refl, sym, ap, ◌∙◌, inl, inr, true, none, some, List, [],
  ◌∷◌, String, ok, bit_and, arith, Option-cases,
}
use sardp.Base.Eq.{nat_eq, string_eq, bytes_eq, bytes_beq_iff}
use sardp.Base.Bits.{bit_and-mask}
use sardp.Base.Map
use sardp.Wire.Varint.{max_value}
use sardp.Session.Messages.{FileTransferDirection, upload, download}
use sardp.Files.HandleStore.{
  FileHandleRecord, FileHandleStore, same_direction, issued, draw_handle, try_issue, check_binding,
  validate,
}

same_direction_iff : (a b : FileTransferDirection) → (same_direction a b ≡ true) ↔ (a ≡ b)
same_direction_iff upload upload = (λ h. refl, λ h. refl)
same_direction_iff upload download = (λ h. ground arith, λ h. ground arith)
same_direction_iff download upload = (λ h. ground arith, λ h. ground arith)
same_direction_iff download download = (λ h. refl, λ h. refl)

check_binding_iff :
    (r s : FileHandleRecord) (id : List ℕ) (user : String) (d : FileTransferDirection) (now : ℕ)
    → (check_binding r id user d now ≡ ok s) ↔ (
        (r ≡ s)
        × (r.session_id ≡ id)
        × (r.user_id ≡ user)
        × (r.direction ≡ d)
        × (now ≤ r.expiry_ts))
unfolding check_binding
check_binding_iff r s id user d now =
    let session = bytes_beq_iff r.session_id id in
    let name = string_eq.beq_iff r.user_id user in
    let way = same_direction_iff r.direction d in
    (λ h. ground (arith, session, name, way), λ h. ground (arith, session, name, way))

-- A handle is accepted exactly when it is in the store, was issued to this session, this user and
-- this direction, and has not expired; the record that comes back is the store's.
pub validate_iff :
    (store : FileHandleStore) (h : ℕ) (s : FileHandleRecord) (id : List ℕ) (user : String)
    (d : FileTransferDirection) (now : ℕ)
    → (validate store h id user d now ≡ ok s) ↔ (
        (Map.lookup h store ≡ some s)
        × (s.session_id ≡ id)
        × (s.user_id ≡ user)
        × (s.direction ≡ d)
        × (now ≤ s.expiry_ts))
unfolding validate
validate_iff store h s id user d now = elim (Option-cases (Map.lookup h store)) [
  | inl e ↦ (λ v. ground arith, λ v. ground arith)
  | inr (r, e) ↦
      let iff = check_binding_iff r s id user d now in
      (λ v. ground (arith, iff), λ v. ground (arith, iff))
]

-- What the loop leaves when it ends with a handle.
draw_issued :
    (store : FileHandleStore) (entry : FileHandleRecord) (words : List ℕ) (h expiry : ℕ)
    → (draw_handle store entry words).1 ≡ issued h expiry
    → ((draw_handle store entry words).0 ≡ Map.insert h entry store)
      × (Map.lookup h store ≡ none)
      × (h ≤ max_value)
      × (expiry ≡ entry.expiry_ts)
unfolding draw_handle Map.contains_key
draw_issued store entry [] h expiry e = ground arith
draw_issued store entry (word ∷ words) h expiry e =
    let small : bit_and word max_value ≤ max_value = omega (arith, bit_and-mask 62 word) in
    elim (Option-cases (Map.lookup (bit_and word max_value) store)) [
      | inl free ↦ (ground arith, ground arith, ground arith, ground arith)
      | inr (r, taken) ↦
          let same : draw_handle store entry (word ∷ words) ≡ draw_handle store entry words =
            rw (taken, Map.contains_key) refl in
          let (left, fresh, fits, until) =
            draw_issued store entry words h expiry (ap (λ x. x.1) (sym same) ∙ e) in
          (ap (λ x. x.0) same ∙ left, fresh, fits, until)
    ]

abbrev entry_for : List ℕ → String → FileTransferDirection → ℕ → ℕ → ℕ → FileHandleRecord
entry_for id user d size ttl now = record {
  session_id = id;
  user_id = user;
  direction = d;
  resolved_size = size;
  expiry_ts = (now + ttl) % 2 ^ 64;
}

try_issue_draws :
    (store : FileHandleStore) (id : List ℕ) (user : String) (d : FileTransferDirection)
    (size ttl most now : ℕ) (words : List ℕ) (h expiry : ℕ)
    → (try_issue store id user d size ttl most now words).1 ≡ issued h expiry
    → try_issue store id user d size ttl most now words
      ≡ draw_handle store (entry_for id user d size ttl now) words
unfolding try_issue
try_issue_draws store id user d size ttl most now words h expiry e = ground arith

-- A handle that was issued is new, fits a varint, and is accepted from then on until it expires,
-- for the session, the user and the direction that it was issued to; no other handle changes.
pub issued_handle :
    (store : FileHandleStore) (id : List ℕ) (user : String) (d : FileTransferDirection)
    (size ttl most now : ℕ) (words : List ℕ) (h expiry later other : ℕ)
    → (try_issue store id user d size ttl most now words).1 ≡ issued h expiry
    → later ≤ expiry
    → other ≢ h
    → let after = (try_issue store id user d size ttl most now words).0 in
      (Map.lookup h store ≡ none)
      × (h ≤ max_value)
      × (expiry ≡ (now + ttl) % 2 ^ 64)
      × (validate after h id user d later
          ≡ ok (record {
            session_id = id;
            user_id = user;
            direction = d;
            resolved_size = size;
            expiry_ts = expiry;
          }))
      × (Map.lookup other after ≡ Map.lookup other store)
issued_handle store id user d size ttl most now words h expiry later other e l differs =
    let entry = entry_for id user d size ttl now in
    let draws = try_issue_draws store id user d size ttl most now words h expiry e in
    let (left, fresh, fits, until) =
      draw_issued store entry words h expiry (ap (λ x. x.1) (sym draws) ∙ e) in
    let after = ap (λ x. x.0) draws ∙ left in
    let kept : FileHandleRecord = record entry { expiry_ts = expiry } in
    let stored = (try_issue store id user d size ttl most now words).0 in
    let found : Map.lookup h stored ≡ some kept =
      rw (after, Map.lookup-insert) (ground (arith, until)) in
    (
      fresh,
      fits,
      until,
      (validate_iff stored h kept id user d later).1 (found, refl, refl, refl, l),
      rw (after, Map.lookup-insert) (ground (arith, differs)),
    )
