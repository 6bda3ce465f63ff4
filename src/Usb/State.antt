-- ===== src/Usb/State.antt =====
-- The static variables of src/max77958.c that its functions use. The three buffers have 33 bytes, and
-- stay with their contents, since the functions share them.
use smartphone_robot_firmwar.Base.{ℕ, Bool, List}

pub record UsbState : Type 0 where
  pub send_buf : List ℕ
  pub return_buf : List ℕ
  pub op_code_return_buf : List ℕ
  pub opcodes_finished : Bool
  pub gpio_interrupt : ℕ
  pub test_max77958_interrupt_bool : Bool
  pub test_max77958_started : Bool
  pub test_max77958_completed : Bool
  pub use_mtp_access : Bool
