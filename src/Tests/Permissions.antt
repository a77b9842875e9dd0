-- ===== src/Tests/Permissions.antt =====
-- Permissions: updates, drains and toggles.
use sardp.Base.{◌^◌, ◌≡◌, ◌↔◌, refl, true, false, List, [], ◌∷◌, ok, err}
use sardp.Base.Eq.{string_eq}
use sardp.Base.Map
use sardp.Session.ReasonCode.{policy_permission_revoked}
use sardp.Permission.PermissionSet.{view}
use sardp.Permission.PermissionSm
use sardp.Permission.PermissionSm.{
  PermissionSm, granted, draining, has_bit, state, apply_update, check_gate,
  build_permission_toggle,
}
use sardp.Permission.PermissionSm.Updates.{
  Event, updates, after, last_granted, gate_follows_last_grant,
}

-- VIEW and CLIP_READ at first; then CLIP_READ is revoked in stages.
abbrev staged : List Event
staged = updates (record { granted_permissions = 1; immediate_revoke = 0 }) ∷ []

gate_follows_last_grant_example :
    ((check_gate (after 9 staged) view ≡ ok tt) ↔ (has_bit (last_granted 9 staged) view ≡ true))
    × ((check_gate (after 9 staged) view ≡ err policy_permission_revoked)
        ↔ (state (after 9 staged) view ≡ draining))
gate_follows_last_grant_example = gate_follows_last_grant 9 view staged refl

abbrev drained : PermissionSm
drained = record { states = (8, draining) ∷ [] }

drains : state (apply_update drained (build_permission_toggle 8 (2 ^ 3) false)) (2 ^ 3) ≡ draining
unfolding apply_update PermissionSm.update_bits PermissionSm.updated_state build_permission_toggle
    state Map.lookup Map.insert
drains = refl
