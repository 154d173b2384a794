-- ===== src/Lfs.antt =====
-- The log-structured file server of linux/lfs.c: its state, one module for each operation with the
-- proofs below it.
pub mod State
pub mod Start
pub mod Lookup
pub mod Transfer
pub mod Creat
pub mod Unlink
