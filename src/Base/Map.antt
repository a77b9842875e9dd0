-- ===== src/Base/Map.antt =====
-- `std::collections::HashMap` as an association list. The order of the entries is not observed
-- by the program; `insert` keeps one entry for a key.
use Prim.Native.Nat.{suc, ◌≤◌}
use mathlib.Core.Path.{◌≡◌, refl}
use mathlib.Core.Bool.{Bool, true, false}
use mathlib.Core.Option.{Option, none, some}
use mathlib.Core.List.{List, [], ◌∷◌}
use native.Mathlib.Omega.{arith}
use sardp.Base.Tests.{if◌then◌else◌}
use sardp.Base.Lists.{length}
use sardp.Base.Eq.{Eq, ◌=?◌}

module _ {ℓ} {K : Type 0} {V : Type ℓ} ⦃e : Eq K⦄ where
  -- `get`.
  unfoldable pub lookup : K → List (K × V) → Option V
  lookup k [] = none
  lookup k ((j, v) ∷ m) = if j =? k then some v else lookup k m

  -- `insert`: replaces the value of a key that is there.
  unfoldable pub insert : K → V → List (K × V) → List (K × V)
  insert k v [] = (k, v) ∷ []
  insert k v ((j, w) ∷ m) = if j =? k then (k, v) ∷ m else (j, w) ∷ insert k v m

  unfoldable pub remove : K → List (K × V) → List (K × V)
  remove k [] = []
  remove k ((j, w) ∷ m) = if j =? k then remove k m else (j, w) ∷ remove k m

  -- `retain` by a test on the values.
  unfoldable pub retain : (V → Bool) → List (K × V) → List (K × V)
  retain p [] = []
  retain p ((j, w) ∷ m) = if p w then (j, w) ∷ retain p m else retain p m

  unfoldable pub contains_key : K → List (K × V) → Bool
  unfolding lookup
  contains_key k m = elim (lookup k m) [ none ↦ false | some v ↦ true ]

  -- No key stands twice.
  abbrev Fresh : K → List (K × V) → Type 0
  Fresh k [] = Unit {0}
  Fresh k ((j, w) ∷ m) = ((j =? k) ≡ false) × Fresh k m

  abbrev pub IsUnique : List (K × V) → Type 0
  IsUnique [] = Unit {0}
  IsUnique ((j, w) ∷ m) = Fresh j m × IsUnique m

  pub lookup-insert :
      (k j : K) (v : V) (m : List (K × V))
      → lookup j (insert k v m) ≡ (if k =? j then some v else lookup j m)
  unfolding lookup insert
  lookup-insert k j v [] = refl
  lookup-insert k j v ((i, w) ∷ m) =
      ground (arith, e.beq_iff k j, e.beq_iff i k, e.beq_iff i j, lookup-insert k j v m)

  pub lookup-remove :
      (k j : K) (m : List (K × V)) → lookup j (remove k m) ≡ (if k =? j then none else lookup j m)
  unfolding lookup remove
  lookup-remove k j [] = ground arith
  lookup-remove k j ((i, w) ∷ m) =
      ground (arith, e.beq_iff k j, e.beq_iff i k, e.beq_iff i j, lookup-remove k j m)

  lookup-Fresh : (k : K) (m : List (K × V)) → Fresh k m → lookup k m ≡ none
  unfolding lookup
  lookup-Fresh k [] f = refl
  lookup-Fresh k ((j, w) ∷ m) f = ground (arith, lookup-Fresh k m f.1)

  pub lookup-retain :
      (p : V → Bool) (k : K) (m : List (K × V))
      → IsUnique m
      → lookup k (retain p m)
        ≡ elim (lookup k m) [ none ↦ none | some v ↦ (if p v then some v else none) ]
  unfolding lookup retain
  lookup-retain p k [] u = refl
  lookup-retain p k ((j, w) ∷ m) u =
      ground (arith, e.beq_iff j k, lookup-Fresh j m u.0, lookup-retain p k m u.1)

  insert-Fresh :
      (i k : K) (v : V) (m : List (K × V)) → (k =? i) ≡ false → Fresh i m → Fresh i (insert k v m)
  unfolding insert
  insert-Fresh i k v [] h f = (h, tt)
  insert-Fresh i k v ((j, w) ∷ m) h f = ground (arith, insert-Fresh i k v m h f.1)

  pub insert-IsUnique : (k : K) (v : V) (m : List (K × V)) → IsUnique m → IsUnique (insert k v m)
  unfolding insert
  insert-IsUnique k v [] u = (tt, tt)
  insert-IsUnique k v ((j, w) ∷ m) u =
      ground (arith, e.beq_iff j k, e.beq_iff k j, insert-Fresh j k v m, insert-IsUnique k v m u.1)

  remove-Fresh : (i k : K) (m : List (K × V)) → Fresh i m → Fresh i (remove k m)
  unfolding remove
  remove-Fresh i k [] f = tt
  remove-Fresh i k ((j, w) ∷ m) f = ground (arith, remove-Fresh i k m f.1)

  pub remove-IsUnique : (k : K) (m : List (K × V)) → IsUnique m → IsUnique (remove k m)
  unfolding remove
  remove-IsUnique k [] u = tt
  remove-IsUnique k ((j, w) ∷ m) u = ground (arith, remove-Fresh j k m u.0, remove-IsUnique k m u.1)

  retain-Fresh : (p : V → Bool) (i : K) (m : List (K × V)) → Fresh i m → Fresh i (retain p m)
  unfolding retain
  retain-Fresh p i [] f = tt
  retain-Fresh p i ((j, w) ∷ m) f = ground (arith, retain-Fresh p i m f.1)

  pub retain-IsUnique : (p : V → Bool) (m : List (K × V)) → IsUnique m → IsUnique (retain p m)
  unfolding retain
  retain-IsUnique p [] u = tt
  retain-IsUnique p ((j, w) ∷ m) u = ground (arith, retain-Fresh p j m u.0, retain-IsUnique p m u.1)

  pub length-retain : (p : V → Bool) (m : List (K × V)) → length (retain p m) ≤ length m
  unfolding retain
  length-retain p [] = omega arith
  length-retain p ((j, w) ∷ m) = ground (arith, length-retain p m)

  pub length-remove : (k : K) (m : List (K × V)) → length (remove k m) ≤ length m
  unfolding remove
  length-remove k [] = omega arith
  length-remove k ((j, w) ∷ m) = ground (arith, length-remove k m)

  -- A key that is not there adds one entry.
  pub length-insert_new :
      (k : K) (v : V) (m : List (K × V))
      → lookup k m ≡ none
      → length (insert k v m) ≡ suc (length m)
  unfolding lookup insert
  length-insert_new k v [] h = refl
  length-insert_new k v ((j, w) ∷ m) h = ground (arith, length-insert_new k v m)
