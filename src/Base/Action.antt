-- ===== src/Base/Action.antt =====
-- An `async fn` on shared state whose calls are tried with `?`: the state that it leaves, whether
-- or not it fails, and its result.
use mathlib.Core.Path.{◌≡◌, refl}
use mathlib.Core.Bool.{Bool, true, false}
use mathlib.Core.Option.{Option, none, some}
use sardp.Base.Results.{Result, ok, err}
use sardp.Base.Tests.{if◌then◌else◌}

abbrev pub Action : Type 0 → Type 0 → Type 0 → Type 0
Action S E A = S → S × Result E A

abbrev pub pure : {S E A : Type 0} → A → Action S E A
pure a s = (s, ok a)

abbrev pub fail : {S E A : Type 0} → E → Action S E A
fail e s = (s, err e)

-- A result that is at hand, tried.
unfoldable pub try : {S E A : Type 0} → Result E A → Action S E A
try r s = (s, r)

abbrev pub modify : {S E : Type 0} → (S → S) → Action S E (Unit {0})
modify f s = (f s, ok tt)

abbrev pub get : {S E : Type 0} → Action S E S
get s = (s, ok s)

abbrev pub continue_with : {S E A B : Type 0} → S × Result E A → (A → Action S E B) → S × Result E B
continue_with (s, ok a) f = f a s
continue_with (s, err e) f = (s, err e)

infixl 5 ◌>>=◌ ◌>>◌
abbrev pub ◌>>=◌ : {S E A B : Type 0} → Action S E A → (A → Action S E B) → Action S E B
◌>>=◌ m f s = continue_with (m s) f

abbrev pub ◌>>◌ : {S E B : Type 0} → Action S E (Unit {0}) → Action S E B → Action S E B
m >> k = m >>= λ _. k

-- `let Some(a) = o else { .. };`, and `if let Err(e) = r { .. } else { .. }`.
abbrev pub let_some :
    {S E A B : Type 0} → Option A → Action S E B → (A → Action S E B) → Action S E B
let_some none otherwise f = otherwise
let_some (some a) otherwise f = f a

abbrev pub if_err :
    {S E R B : Type 0} → Result R (Unit {0}) → (R → Action S E B) → Action S E B → Action S E B
if_err (err e) f otherwise = f e
if_err (ok u) f otherwise = otherwise

-- How a run ends: with a result and a state of which `Q` holds, or with an error and a state of
-- which `J` holds.
pub data Ends {S E A : Type 0} (Q : A → S → Type 0) (J : E → S → Type 0)
    : S × Result E A → Type 0 where
  returns : (a : A) (s : S) → Q a s → Ends Q J (s, ok a)
  raises : (e : E) (s : S) → J e s → Ends Q J (s, err e)

module _ {S E A : Type 0} {Q : A → S → Type 0} {J : E → S → Type 0} where
  -- The rule for a bind: what follows starts from what the first action ends with.
  pub bind-Ends :
      {B : Type 0} {R : B → S → Type 0} (p : S × Result E A) (f : A → Action S E B)
      → Ends Q J p
      → ((a : A) (s : S) → Q a s → Ends R J (f a s))
      → Ends R J (continue_with p f)
  bind-Ends p f (returns a s q) k = k a s q
  bind-Ends p f (raises e s j) k = raises e s j

  pub if-Ends :
      (b : Bool) (m k : Action S E A) (s : S)
      → (b ≡ true → Ends Q J (m s))
      → (b ≡ false → Ends Q J (k s))
      → Ends Q J ((if b then m else k) s)
  if-Ends true m k s then_good else_good = then_good refl
  if-Ends false m k s then_good else_good = else_good refl

  -- A state and a result.
  pub pair-Ends : (s : S) (r : Result E A) → ((a : A) → Q a s) → ((e : E) → J e s) → Ends Q J (s, r)
  pair-Ends s (ok a) good bad = returns a s (good a)
  pair-Ends s (err e) good bad = raises e s (bad e)

  pub try-Ends :
      (s : S) (r : Result E A) → ((a : A) → Q a s) → ((e : E) → J e s) → Ends Q J (try r s)
  unfolding try
  try-Ends s r good bad = pair-Ends s r good bad

  pub let_some-Ends :
      {B : Type 0} (o : Option B) (m : Action S E A) (f : B → Action S E A) (s : S)
      → Ends Q J (m s)
      → ((b : B) → Ends Q J (f b s))
      → Ends Q J (let_some o m f s)
  let_some-Ends none m f s h k = h
  let_some-Ends (some b) m f s h k = k b

  pub if_err-Ends :
      {R : Type 0} (r : Result R (Unit {0})) (f : R → Action S E A) (m : Action S E A) (s : S)
      → ((e : R) → Ends Q J (f e s))
      → (r ≡ ok tt → Ends Q J (m s))
      → Ends Q J (if_err r f m s)
  if_err-Ends (ok tt) f m s h k = k refl
  if_err-Ends (err e) f m s h k = h e
