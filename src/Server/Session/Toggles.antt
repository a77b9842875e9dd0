-- ===== src/Server/Session/Toggles.antt =====
-- What a command of the administrator does to the permissions of a session.
use sardp.Base.{ℕ, ◌^◌, ◌≡◌, refl, ◌∙◌, ap, Bool, true, ◌==◌, if◌then◌else◌, arith}
use sardp.Permission.PermissionSm.{
  PermissionSm, is_granted, has_bit, all_bits, apply_update, updated_state, build_permission_toggle,
}
use sardp.Session.Messages.{PermissionUpdate}
use sardp.Permission.PermissionSm.Updates.{contains, state-apply_update}
use sardp.Permission.PermissionSm.Toggle.{has_bit-build_permission_toggle}
use sardp.Permission.AdminCommand.{toggle_permission}
use sardp.Server.Foreign.{Foreign}
use sardp.Server.Session.{Network, SessionConfig, SessionState, write_control, hand_over}
use sardp.Server.Session.Control.{run_command}

is_granted-apply_update :
    (sm : PermissionSm) (u : PermissionUpdate) (b : ℕ)
    → contains b all_bits ≡ true
    → is_granted (apply_update sm u) b ≡ has_bit u.granted_permissions b
unfolding is_granted updated_state
is_granted-apply_update sm u b known = ground (arith, state-apply_update sm u b)

module _ {F : Foreign} (n : Network F) (cfg : SessionConfig F) where
  run_command-permissions :
      (s : SessionState) (b : ℕ) (grant : Bool)
      → (run_command n cfg (toggle_permission b grant) s).0.permission_sm
        ≡ apply_update s.permission_sm (build_permission_toggle cfg.granted_permissions b grant)
  unfolding run_command write_control hand_over
  run_command-permissions s b grant = refl

  -- A toggle sets its own bit as asked, and brings every other bit back to what the handshake
  -- granted: whatever was granted or revoked since is undone by it.
  pub toggle_resets_others :
      (s : SessionState) (k j : ℕ) (grant : Bool)
      → contains (2 ^ j) all_bits ≡ true
      → is_granted (run_command n cfg (toggle_permission (2 ^ k) grant) s).0.permission_sm (2 ^ j)
        ≡ (if k == j then grant else has_bit cfg.granted_permissions (2 ^ j))
  toggle_resets_others s k j grant known =
      let u = build_permission_toggle cfg.granted_permissions (2 ^ k) grant in
      ap (λ sm. is_granted sm (2 ^ j)) (run_command-permissions s (2 ^ k) grant)
      ∙ is_granted-apply_update s.permission_sm u (2 ^ j) known
      ∙ has_bit-build_permission_toggle cfg.granted_permissions k j grant
