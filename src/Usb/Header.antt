-- ===== src/Usb/Header.antt =====
-- The constants of max77958_driver.h, which is in a submodule, as a parameter of the model.
use smartphone_robot_firmwar.Base.{ℕ}

pub record DriverHeader : Type 0 where
  pub max77958_slave_p1 : ℕ
  pub reg_uic_int : ℕ
  pub reg_uic_int_m : ℕ
  pub reg_pd_status0 : ℕ
  pub opcode_write : ℕ
  pub opcode_read_command : ℕ
  pub opcode_set_gpio : ℕ
  pub opcode_snk_pdo_set : ℕ
  pub opcode_set_source_cap : ℕ
  pub pdmsg_prswap_srctoswap : ℕ
  pub pdmsg_prswap_swaptosnk : ℕ
  pub pdmsg_prswap_snktoswap : ℕ
  pub pdmsg_prswap_swaptosrc : ℕ
  pub pdmsg_vdm_nak_received : ℕ
  pub pdmsg_vdm_busy_received : ℕ
  pub pdmsg_vdm_ack_received : ℕ
  pub pdmsg_vdm_req_received : ℕ
