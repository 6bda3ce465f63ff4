-- ===== src/Peripherals.antt =====
-- The small drivers: src/max77857.c, src/sn74ahc125rgyr.c and src/interupts.c.
pub mod Regulator
pub mod Buffers
pub mod EventNames
