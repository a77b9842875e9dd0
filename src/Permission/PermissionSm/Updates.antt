-- ===== src/Permission/PermissionSm/Updates.antt =====
-- What updates do to each bit, and which operations they admit.
use sardp.Base.{
  ℕ, ◌≡◌, ◌↔◌, refl, inl, inr, Bool, true, false, ◌||◌, ◌&&◌, List, [], ◌∷◌, ok, err, ◌==◌,
  if◌then◌else◌, arith, Bool-cases,
}
use sardp.Base.Eq.{nat_eq}
use sardp.Base.Map
use sardp.Session.ReasonCode.{policy_permission_revoked}
use sardp.Session.Messages.{PermissionUpdate}
use sardp.Permission.PermissionSm.{
  PermissionSm, BitState, not_granted, granted, draining, all_bits, has_bit, state, is_granted,
  updated_state, update_bits, apply_update, finish_draining, check_gate, initial_states, new,
}

abbrev pub contains : ℕ → List ℕ → Bool
contains b [] = false
contains b (x ∷ bits) = x == b || contains b bits

abbrev IsDistinct : List ℕ → Type 0
IsDistinct [] = Unit {0}
IsDistinct (x ∷ bits) = (contains x bits ≡ false) × IsDistinct bits

state-insert :
    (s : PermissionSm) (b j : ℕ) (v : BitState)
    → state (record { states = Map.insert b v s.states }) j ≡ (if b == j then v else state s j)
unfolding state
state-insert s b j v = ground (arith, Map.lookup-insert b j v s.states)

state-update_bits :
    (u : PermissionUpdate) (bits : List ℕ) (s : PermissionSm) (b : ℕ)
    → IsDistinct bits
    → state (update_bits u bits s) b
      ≡ (if contains b bits then updated_state u b (state s b) else state s b)
unfolding update_bits
state-update_bits u [] s b h = refl
state-update_bits u (x ∷ bits) s b h =
    let v = updated_state u x (state s x) in
    let s' : PermissionSm = record { states = Map.insert x v s.states } in
    elim (Bool-cases (x == b)) [
      | inl e ↦ ground (arith, state-update_bits u bits s' b h.1, state-insert s x b v, h.0)
      | inr e ↦ ground (arith, state-update_bits u bits s' b h.1, state-insert s x b v)
    ]

all_bits-IsDistinct : IsDistinct all_bits
all_bits-IsDistinct =
    (refl, (refl, (refl, (refl, (refl, (refl, (refl, (refl, (refl, (refl, tt))))))))))

-- An update moves each known bit as the table of the state machine has it, by its own state and
-- its bits in the update alone; it moves no other bit.
pub state-apply_update :
    (s : PermissionSm) (u : PermissionUpdate) (b : ℕ)
    → state (apply_update s u) b
      ≡ (if contains b all_bits then updated_state u b (state s b) else state s b)
unfolding apply_update
state-apply_update s u b = state-update_bits u all_bits s b all_bits-IsDistinct

state-none : (b : ℕ) → state (record { states = [] }) b ≡ not_granted
unfolding state Map.lookup
state-none b = refl

gate_iff :
    (s : PermissionSm) (b : ℕ)
    → ((check_gate s b ≡ ok tt) ↔ (state s b ≡ granted))
      × ((check_gate s b ≡ err policy_permission_revoked) ↔ (state s b ≡ draining))
unfolding check_gate is_granted
gate_iff s b = ((λ h. ground arith, λ h. ground arith), (λ h. ground arith, λ h. ground arith))

state-initial_states :
    (mask b : ℕ) (bits : List ℕ)
    → IsDistinct bits
    → state (record { states = initial_states mask bits }) b
      ≡ (if contains b bits && has_bit mask b then granted else not_granted)
unfolding initial_states
state-initial_states mask b [] h = state-none b
state-initial_states mask b (x ∷ bits) h =
    let v = if has_bit mask x then granted else not_granted in
    let s : PermissionSm = record { states = initial_states mask bits } in
    elim (Bool-cases (x == b)) [
      | inl e ↦ ground (arith, state-initial_states mask b bits h.1, state-insert s x b v)
      | inr e ↦ ground (arith, state-initial_states mask b bits h.1, state-insert s x b v)
    ]

state-finish_draining :
    (s : PermissionSm) (b j : ℕ)
    → state (finish_draining s b) j ≡ elim (state s j) as (λ x. BitState) [
      | draining ↦ if b == j then not_granted else draining
      | granted ↦ granted
      | not_granted ↦ not_granted
    ]
unfolding finish_draining
state-finish_draining s b j = ground (arith, state-insert s b j not_granted)

-- The life of a connection's permissions, the newest event first, from the mask that the client
-- was granted when it was authenticated.
pub data Event : Type 0 where
  updates : PermissionUpdate → Event
  finishes : ℕ → Event

abbrev pub after : ℕ → List Event → PermissionSm
after mask [] = new mask
after mask (updates u ∷ older) = apply_update (after mask older) u
after mask (finishes b ∷ older) = finish_draining (after mask older) b

-- The mask that was granted last.
abbrev pub last_granted : ℕ → List Event → ℕ
last_granted mask [] = mask
last_granted mask (updates u ∷ older) = u.granted_permissions
last_granted mask (finishes b ∷ older) = last_granted mask older

is_granted-updated :
    (u : PermissionUpdate) (b : ℕ) (st : BitState)
    → (updated_state u b st ≡ granted) ↔ (has_bit u.granted_permissions b ≡ true)
unfolding updated_state
is_granted-updated u b st = (λ h. ground arith, λ h. ground arith)

granted_iff :
    (mask b : ℕ) (events : List Event)
    → contains b all_bits ≡ true
    → (state (after mask events) b ≡ granted) ↔ (has_bit (last_granted mask events) b ≡ true)
unfolding new
granted_iff mask b [] h =
    let e = state-initial_states mask b all_bits all_bits-IsDistinct in
    (λ g. ground (arith, e), λ g. ground (arith, e))
granted_iff mask b (updates u ∷ older) h =
    let e = state-apply_update (after mask older) u b in
    let f = is_granted-updated u b (state (after mask older) b) in
    (λ g. ground (arith, e, f), λ g. ground (arith, e, f))
granted_iff mask b (finishes j ∷ older) h =
    let e = state-finish_draining (after mask older) j b in
    let ih = granted_iff mask b older h in (λ g. ground (arith, e, ih), λ g. ground (arith, e, ih))

-- Through all updates and all ends of drains, a new operation is admitted exactly if the mask that
-- was granted last has its bit; where it is not, the reason is that it was revoked while the bit
-- drains, and that it was denied otherwise.
pub gate_follows_last_grant :
    (mask b : ℕ) (events : List Event)
    → contains b all_bits ≡ true
    → ((check_gate (after mask events) b ≡ ok tt) ↔ (has_bit (last_granted mask events) b ≡ true))
      × ((check_gate (after mask events) b ≡ err policy_permission_revoked)
          ↔ (state (after mask events) b ≡ draining))
gate_follows_last_grant mask b events h =
    let (forth, back) = granted_iff mask b events h in
    let ((admits, admitted), revoked) = gate_iff (after mask events) b in
    ((λ g. forth (admits g), λ g. admitted (back g)), revoked)
