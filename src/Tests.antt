-- ===== src/Tests.antt =====
-- Runs at concrete inputs, and each property applied to one.
mod Streams
mod Sessions
mod Channels
mod Frames
mod Permissions
mod Transfers
mod Clients
mod Servers
mod Connections
mod Instances
