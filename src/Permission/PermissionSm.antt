-- ===== src/Permission/PermissionSm.antt =====
-- src/permission_sm.rs: the state machine of each permission bit.
pub mod Updates
pub mod Toggle
use sardp.Base.{
  ℕ, ◌-◌, ◌^◌, Bool, true, false, not, Option, none, some, List, [], ◌∷◌, map, Result, ok, err,
  ◌==◌, bit_and, bit_or, if◌then◌else◌,
}
use sardp.Base.Eq.{nat_eq}
use sardp.Base.Map
use sardp.Session.ReasonCode.{ReasonCode, policy_permission_revoked, policy_permission_denied}
use sardp.Session.Messages.{PermissionUpdate}
use sardp.Permission.PermissionSet.{
  view, input_keyboard, input_mouse, clip_read, clip_write, file_up, file_down, audio_playback,
  audio_capture, admin,
}

abbrev pub all_bits : List ℕ
all_bits =
    view ∷ input_keyboard ∷ input_mouse ∷ clip_read ∷ clip_write ∷ file_up ∷ file_down
    ∷ audio_playback ∷ audio_capture ∷ admin ∷ []

pub data BitState : Type 0 where
  not_granted granted draining : BitState

pub record PermissionSm : Type 0 where
  pub states : List (ℕ × BitState)

-- `mask & bit != 0`.
abbrev pub has_bit : ℕ → ℕ → Bool
has_bit mask b = not (bit_and mask b == 0)

-- The `map` and `collect` of `new`, over a list of bits.
unfoldable pub initial_states : ℕ → List ℕ → List (ℕ × BitState)
initial_states granted_permissions [] = []
initial_states granted_permissions (b ∷ bits) =
    Map.insert b (if has_bit granted_permissions b then granted else not_granted)
      (initial_states granted_permissions bits)

unfoldable pub new : ℕ → PermissionSm
new granted_permissions = record { states = initial_states granted_permissions all_bits }

unfoldable pub state : PermissionSm → ℕ → BitState
state s b = elim (Map.lookup b s.states) [ none ↦ not_granted | some st ↦ st ]

unfoldable pub is_granted : PermissionSm → ℕ → Bool
is_granted s b = elim (state s b) [ granted ↦ true | _ ↦ false ]

-- `new_state` of one bit in the loop.
unfoldable pub updated_state : PermissionUpdate → ℕ → BitState → BitState
updated_state update b current =
    if has_bit update.granted_permissions b then granted else elim current [
      | granted ↦ if has_bit update.immediate_revoke b then not_granted else draining
      | draining ↦ draining
      | not_granted ↦ not_granted
    ]

-- The loop of `apply_update`, over a list of bits.
unfoldable pub update_bits : PermissionUpdate → List ℕ → PermissionSm → PermissionSm
update_bits update [] s = s
update_bits update (b ∷ bits) s =
    update_bits update bits
      (record { states = Map.insert b (updated_state update b (state s b)) s.states })

unfoldable pub apply_update : PermissionSm → PermissionUpdate → PermissionSm
apply_update s update = update_bits update all_bits s

unfoldable pub finish_draining : PermissionSm → ℕ → PermissionSm
finish_draining s b = elim (state s b) [
  | draining ↦ record { states = Map.insert b not_granted s.states }
  | _ ↦ s
]

unfoldable pub check_gate : PermissionSm → ℕ → Result ReasonCode (Unit {0})
check_gate s b = if is_granted s b then ok tt else elim (state s b) [
  | draining ↦ err policy_permission_revoked
  | _ ↦ err policy_permission_denied
]

-- `current_granted & !bit` is `current_granted` less the bits that both have.
unfoldable pub build_permission_toggle : ℕ → ℕ → Bool → PermissionUpdate
build_permission_toggle current_granted b grant =
    let other_bits = current_granted - bit_and current_granted b in
    let this_bit = if grant then b else 0 in
    record {
      granted_permissions = bit_or this_bit other_bits;
      immediate_revoke = if grant then 0 else b;
    }
