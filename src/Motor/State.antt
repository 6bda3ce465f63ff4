-- ===== src/Motor/State.antt =====
-- The static variables of src/drv8830.c.
use smartphone_robot_firmwar.Base.{ℕ, Bool, List}

pub record MotorState : Type 0 where
  pub gpio_fault1 : ℕ
  pub gpio_fault2 : ℕ
  pub fault_values : List ℕ
  pub test_drv8830_started : Bool
  pub test_drv8830_completed : Bool
