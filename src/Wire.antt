-- ===== src/Wire.antt =====
-- The packets of wspace_asym_util.h and wspace_asym_util.cc that stations and clients send.
pub mod Rate
pub mod Ack
pub mod Header
pub mod Report
