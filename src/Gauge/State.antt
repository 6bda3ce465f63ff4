-- ===== src/Gauge/State.antt =====
-- The static variables of src/bq27742_g1.c, less the buffers that each call clears first.
use smartphone_robot_firmwar.Base.{ℕ, Bool}

pub record GaugeState : Type 0 where
  pub gpio_interrupt : ℕ
  pub interrupt_pending : Bool
  pub temperature : ℕ  -- uint16_t
