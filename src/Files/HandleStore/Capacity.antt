-- ===== src/Files/HandleStore/Capacity.antt =====
-- The store stays within its bound, and a sweep takes what has expired and nothing else.
use sardp.Base.{
  ℕ, suc, ◌+◌, ◌%◌, ◌^◌, ◌≤◌, ◌≡◌, inl, inr, none, some, List, [], ◌∷◌, String, length, leb,
  bit_and, if◌then◌else◌, arith, Option-cases,
}
use sardp.Base.Eq.{nat_eq}
use sardp.Base.Map
use sardp.Wire.Varint.{max_value}
use sardp.Session.Messages.{FileTransferDirection}
use sardp.Files.HandleStore.{
  FileHandleRecord, FileHandleStore, draw_handle, try_issue, sweep_expired, remove,
}

draw-bound :
    (store : FileHandleStore) (entry : FileHandleRecord) (words : List ℕ)
    → length (draw_handle store entry words).0 ≤ suc (length store)
unfolding draw_handle Map.contains_key
draw-bound store entry [] = omega arith
draw-bound store entry (word ∷ words) =
    elim (Option-cases (Map.lookup (bit_and word max_value) store)) [
      | inl free ↦ ground (arith, Map.length-insert_new (bit_and word max_value) entry store free)
      | inr (r, taken) ↦ ground (arith, draw-bound store entry words)
    ]

draw-IsUnique :
    (store : FileHandleStore) (entry : FileHandleRecord) (words : List ℕ)
    → Map.IsUnique store
    → Map.IsUnique (draw_handle store entry words).0
unfolding draw_handle Map.contains_key
draw-IsUnique store entry [] u = u
draw-IsUnique store entry (word ∷ words) u =
    elim (Option-cases (Map.lookup (bit_and word max_value) store)) [
      | inl free ↦ ground (arith, Map.insert-IsUnique (bit_and word max_value) entry store u)
      | inr (r, taken) ↦ ground (arith, draw-IsUnique store entry words u)
    ]

-- One change of the store, where every issue is bounded by `most`.
pub data Change (most : ℕ) : Type 0 where
  issues : List ℕ → String → FileTransferDirection → ℕ → ℕ → ℕ → List ℕ → Change most
  sweeps : ℕ → Change most
  removes : ℕ → Change most

abbrev pub apply : (most : ℕ) → Change most → FileHandleStore → FileHandleStore
apply most (issues id user d size ttl now words) store =
    (try_issue store id user d size ttl most now words).0
apply most (sweeps now) store = (sweep_expired store now).0
apply most (removes h) store = remove store h

abbrev pub run : (most : ℕ) → List (Change most) → FileHandleStore → FileHandleStore
run most [] store = store
run most (c ∷ changes) store = run most changes (apply most c store)

IsKept : ℕ → FileHandleStore → Type 0
IsKept most store = (length store ≤ most) × Map.IsUnique store

apply-IsKept :
    (most : ℕ) (c : Change most) (store : FileHandleStore)
    → IsKept most store
    → IsKept most (apply most c store)
unfolding IsKept try_issue sweep_expired remove
apply-IsKept most (issues id user d size ttl now words) store (b, u) =
    let entry : FileHandleRecord = record {
      session_id = id;
      user_id = user;
      direction = d;
      resolved_size = size;
      expiry_ts = (now + ttl) % 2 ^ 64;
    } in
    (
      ground (arith, draw-bound store entry words),
      ground (arith, draw-IsUnique store entry words u),
    )
apply-IsKept most (sweeps now) store (b, u) = (
  omega (arith, Map.length-retain (λ r. leb now r.expiry_ts) store),
  Map.retain-IsUnique (λ r. leb now r.expiry_ts) store u,
)
apply-IsKept most (removes h) store (b, u) =
    (omega (arith, Map.length-remove h store), Map.remove-IsUnique h store u)

run-IsKept :
    (most : ℕ) (changes : List (Change most)) (store : FileHandleStore)
    → IsKept most store
    → IsKept most (run most changes store)
run-IsKept most [] store h = h
run-IsKept most (c ∷ changes) store h =
    run-IsKept most changes (apply most c store) (apply-IsKept most c store h)

-- Whatever is issued, swept and removed, the store never holds more than `most` handles.
run-bound : (most : ℕ) (changes : List (Change most)) → length (run most changes []) ≤ most
unfolding IsKept
run-bound most changes = (run-IsKept most changes [] (omega arith, tt)).0

-- A sweep of a store that grew from the empty one takes exactly the handles that expired before
-- `now`: those that `validate` refuses as expired.
lookup-sweep_expired :
    (most : ℕ) (changes : List (Change most)) (h now : ℕ)
    → Map.lookup h (sweep_expired (run most changes []) now).0
      ≡ elim (Map.lookup h (run most changes [])) [
        | none ↦ none
        | some r ↦ if leb now r.expiry_ts then some r else none
      ]
unfolding sweep_expired IsKept
lookup-sweep_expired most changes h now =
    Map.lookup-retain (λ r. leb now r.expiry_ts) h (run most changes [])
      (run-IsKept most changes [] (omega arith, tt)).1
