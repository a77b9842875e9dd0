-- ===== src/Files.antt =====
-- File transfer: the handles that authorize a transfer, the reassembly of its chunks, and both
-- ends of the `file` stream.
pub mod HandleStore
pub mod Reassembly
pub mod Transfer
