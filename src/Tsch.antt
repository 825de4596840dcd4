-- ===== src/Tsch.antt =====
-- Time-slotted channel hopping: dot15d4/src/mac/tsch.
pub mod Asn
pub mod Schedule
