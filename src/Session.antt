-- ===== src/Session.antt =====
-- The session of one client: reason codes and messages, the connection's state machine, the store
-- of suspended sessions, and reconnection.
pub mod ReasonCode
pub mod Messages
pub mod ConnectionSm
pub mod Store
pub mod Reconnect
