-- ===== src/Tests.antt =====
-- Runs of the firmware on a concrete board, and the theorems at concrete inputs.
pub mod Scenario
mod Link
mod Gauges
mod Drivers
mod Words
mod Usb
mod Voltage
mod Startup
