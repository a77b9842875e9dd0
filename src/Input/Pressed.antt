-- ===== src/Input/Pressed.antt =====
-- src/input_state.rs: the keys and buttons that are down.
pub mod Ordered
pub mod Releases
use sardp.Base.{ℕ, ◌≡◌, Bool, true, false, ◌&&◌, List, [], ◌∷◌, ◌++◌, map, ltb, ◌==◌, if◌then◌else◌}

pub data Release : Type 0 where
  key button : ℕ → Release

-- `BTreeSet` as its elements in order.
unfoldable pub insert : ℕ → List ℕ → List ℕ
insert x [] = x ∷ []
insert x (y ∷ ys) = if ltb x y then x ∷ y ∷ ys else if x == y then y ∷ ys else y ∷ insert x ys

unfoldable pub remove : ℕ → List ℕ → List ℕ
remove x [] = []
remove x (y ∷ ys) = if x == y then ys else y ∷ remove x ys

pub record PressedInputs : Type 0 where
  pub keys : List ℕ
  pub buttons : List ℕ

unfoldable pub new : PressedInputs
new = record { keys = []; buttons = [] }

unfoldable pub on_key : PressedInputs → ℕ → Bool → PressedInputs
on_key p scancode down =
    if down
    then record p { keys = insert scancode p.keys }
    else record p { keys = remove scancode p.keys }

unfoldable pub on_button : PressedInputs → ℕ → Bool → PressedInputs
on_button p b down =
    if down
    then record p { buttons = insert b p.buttons }
    else record p { buttons = remove b p.buttons }

abbrev is_empty_list : List ℕ → Bool
is_empty_list [] = true
is_empty_list (x ∷ xs) = false

unfoldable pub is_empty : PressedInputs → Bool
is_empty p = is_empty_list p.keys && is_empty_list p.buttons

unfoldable pub take_releases : PressedInputs → PressedInputs × List Release
take_releases p =
    (record { keys = []; buttons = [] }, map (λ b. button b) p.buttons ++ map (λ k. key k) p.keys)
