-- ===== src/Motor/Direction.antt =====
-- src/drv8830.c: the two direction bits that set_voltage writes.
use smartphone_robot_firmwar.Base.{pos}
use smartphone_robot_firmwar.Motor.Voltage.{Floats}

module _ (floats : Floats) where
  abbrev zero_volts : floats.Number
  zero_volts = floats.decimal (pos 0) 0
