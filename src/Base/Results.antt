-- ===== src/Base/Results.antt =====
-- Rust's `Result<A, E>`, with `?` as the bind of a `do` block.
use mathlib.Core.Path.{◌≡◌}
use mathlib.Core.Option.{Option, none, some}

pub data Result {ℓ} (E : Type 0) (A : Type ℓ) : Type ℓ where
  ok : A → Result E A
  err : E → Result E A

infixl 5 ◌>>=◌ ◌>>◌
abbrev pub ◌>>=◌ {ℓ κ} :
    {E : Type 0} {A : Type ℓ} {B : Type κ} → Result E A → (A → Result E B) → Result E B
ok a >>= f = f a
err e >>= f = err e

abbrev pub ◌>>◌ {ℓ} : {E : Type 0} {B : Type ℓ} → Result E (Unit {0}) → Result E B → Result E B
m >> k = m >>= λ _. k

-- `Option::ok_or`.
abbrev pub ok_or {ℓ} : {E : Type 0} {A : Type ℓ} → Option A → E → Result E A
ok_or none e = err e
ok_or (some a) e = ok a

-- `Result::is_err`, as the outcome of a method that returns `Result<(), E>` on `&mut self`: the
-- new state, and what was returned.
abbrev pub Outcome : Type 0 → Type 0 → Type 0
Outcome E S = S × Result E (Unit {0})

-- `method()?` in a sequence of methods on one state: the first error ends the sequence, and the
-- state is what the methods up to there left.
infixl 5 ◌then_try◌
abbrev pub ◌then_try◌ : {E S : Type 0} → Outcome E S → (S → Outcome E S) → Outcome E S
(s, ok u) then_try f = f s
(s, err e) then_try f = (s, err e)

pub ok_pair {ℓ κ} :
    {E : Type 0} {A : Type ℓ} {B : Type κ} {a c : A} {b d : B}
    → ◌≡◌ {A = Result E (A × B)} (ok (a, b)) (ok (c, d))
    → (a ≡ c) × (b ≡ d)
ok_pair e = (cc, cc)

abbrev pub map_err {ℓ} : {E F : Type 0} {A : Type ℓ} → (E → F) → Result E A → Result F A
map_err f (ok a) = ok a
map_err f (err e) = err (f e)
