-- ===== src/Wire/Varint.antt =====
-- src/varint.rs: QUIC variable-length integers, behind the functions and their laws.
mod Defs
mod Bytes
pub mod Decode
pub mod RoundTrip
pub use Defs.{VarintError, incomplete}
unfoldable pub use Defs.{IsByte, shift_in, fold_bytes, decode, max_value, to_be_bytes, encode}
unfoldable pub use Bytes.{encoding}
pub use Bytes.{encode-encoding}
