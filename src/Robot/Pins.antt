-- ===== src/Robot/Pins.antt =====
-- include/robot.h: the GPIO pins of the board.
use smartphone_robot_firmwar.Base.{ℕ}

abbrev pub gpio_wireless_available : ℕ
gpio_wireless_available = 4

abbrev pub battery_charger_interrupt_pin : ℕ
battery_charger_interrupt_pin = 6

abbrev pub max77958_intb : ℕ
max77958_intb = 7

abbrev pub bq27742_g1_interrupt_pin : ℕ
bq27742_g1_interrupt_pin = 20

abbrev pub drv8830_fault1 : ℕ
drv8830_fault1 = 10

abbrev pub drv8830_fault2 : ℕ
drv8830_fault2 = 11
