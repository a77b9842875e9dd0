-- ===== src/Video.antt =====
-- The video of one monitor, on the server: queue delays and the decisions on them, the state
-- machines of channel and instance, the channel that ties them together, the monitors of a
-- connection, and the client's circuit breaker.
pub mod Backpressure
pub mod ChannelSm
pub mod InstanceSm
pub mod VideoChannel
pub mod MonitorManager
pub mod CircuitBreaker
pub mod H264
pub mod Messages
pub mod Session
