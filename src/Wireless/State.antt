-- ===== src/Wireless/State.antt =====
-- The static variables of src/ncp3901.c.
use smartphone_robot_firmwar.Base.{ℕ, Bool}

pub record WirelessState : Type 0 where
  pub gpio_wireless_charger : ℕ
  pub gpio_otg : ℕ
  pub test_ncp3901_started : Bool
  pub test_ncp3901_completed : Bool
  pub wireless_charger_attached : Bool
