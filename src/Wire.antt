-- ===== src/Wire.antt =====
-- The wire format (src/varint.rs, src/stream_kind.rs, src/envelope.rs, src/prologue.rs,
-- src/stream_reader.rs). A buffer `&[u8]` is a list of numbers below 256.
pub mod StreamKind
pub mod Varint
pub mod Envelope
pub mod Prologue
pub mod Reader
