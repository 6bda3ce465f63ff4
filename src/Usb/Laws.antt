-- ===== src/Usb/Laws.antt =====
-- What src/max77958.c guarantees.
pub mod Buffers
pub mod Commands
pub mod Queue
pub mod Refines
pub mod Response
pub mod Waiting
pub mod Config
pub mod Parse
