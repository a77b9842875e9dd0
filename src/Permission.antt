-- ===== src/Permission.antt =====
-- What the client may do: the bits of a permission set, the state machine of each bit, and the
-- server's commands that toggle them.
pub mod PermissionSet
pub mod PermissionSm
pub mod AdminCommand
