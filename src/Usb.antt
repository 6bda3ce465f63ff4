-- ===== src/Usb.antt =====
-- src/max77958.c and include/max77958.h: the USB-C controller on `i2c0`.
pub mod State
pub mod Header
pub mod Transfer
pub mod Config
pub mod Opcode
pub mod Status
pub mod Irq
pub mod SelfTest
pub mod Laws
