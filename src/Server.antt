-- ===== src/Server.antt =====
-- The server program (sardp-cli/src/bin/sardp-server.rs): what it does with a client's input, the
-- loop of an active session, and the connection around it.
pub mod Foreign
pub mod ConnError
pub mod Messages
pub mod Injection
pub mod Session
pub mod Connection
