-- ===== src/Server/Foreign.antt =====
-- The errors of quinn, ciborium, tokio and the operating system, which no source of this
-- repository defines.
pub record Foreign : Type 1 where
  pub connection_error : Type 0
  pub read_error : Type 0
  pub write_error : Type 0
  pub cbor_error : Type 0
  pub join_error : Type 0
  pub io_error : Type 0
  pub exit_status : Type 0
