-- ===== src/Gauge/Laws.antt =====
-- What src/bq27742_g1.c guarantees.
pub mod Config
pub mod Checksum
pub mod Handlers
pub mod Pending
pub mod Reports
