-- ===== src/Gauge.antt =====
-- src/bq27742_g1.c and include/bq27742_g1.h: the battery gauge on `i2c0`.
pub mod State
pub mod Transfer
pub mod Readings
pub mod DataFlash
pub mod HostConfig
pub mod Irq
pub mod Laws
