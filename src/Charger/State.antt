-- ===== src/Charger/State.antt =====
-- The static variables of src/max77976.c, less the buffers that each call clears first.
use smartphone_robot_firmwar.Base.{ℕ, Bool}

pub record ChargerState : Type 0 where
  pub gpio_interrupt : ℕ
  pub test_max77976_interrupt_bool : Bool
  pub test_max77976_started : Bool
  pub test_max77976_completed : Bool
