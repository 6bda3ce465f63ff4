-- ===== src/Motor/Voltage.antt =====
-- src/drv8830.c: a voltage as the control byte of a motor, and the set-up of the drivers. C's floating-point
-- numbers are a parameter.
use smartphone_robot_firmwar.Base.{
  ℕ, ◌*◌, ◌^◌, ℤ, pos, negsuc, Bool, true, false, ◌&&◌, [], bit_and, bit_or, if◌then◌else◌, u8, u16,
}
use smartphone_robot_firmwar.Board.Sdk.{Event}
use smartphone_robot_firmwar.Board.{Hardware, M, ◌>>◌, modify, call, rp2040_log}
use smartphone_robot_firmwar.Motor.{
  MotorId, motor_left, motor_right, set_motor_control, drv8830_irq_mask,
}

-- The operations that the code uses: `decimal n k` is the constant `n / 10 ^ k`, `as_float` the rounding of
-- a double that is stored in a float, `as_int16` the conversion to `int16_t`, as a 16-bit pattern.
pub record Floats : Type 1 where
  pub Number : Type 0
  pub decimal : ℤ → ℕ → Number
  pub as_float : Number → Number
  pub less : Number → Number → Bool
  pub less_eq : Number → Number → Bool
  pub fabs : Number → Number
  pub times : Number → Number → Number
  pub divided : Number → Number → Number
  pub minus : Number → Number → Number
  pub as_int16 : Number → ℕ

module _ (floats : Floats) where
  -- The voltage after the dead zone and the limits.
  unfoldable pub clamped : floats.Number → floats.Number
  clamped voltage =
      let low = floats.decimal (negsuc 505) 2 in
      let high = floats.decimal (pos 506) 2 in
      let still =
        floats.less_eq (floats.decimal (negsuc 47) 2) voltage
        && floats.less_eq voltage (floats.decimal (pos 48) 2) in
      let moved = if still then floats.as_float (floats.decimal (pos 0) 1) else voltage in
      if floats.less moved low
      then floats.as_float low
      else if floats.less high moved
      then floats.as_float high
      else moved

  -- The bits of the voltage, shifted to their place.
  unfoldable pub voltage_bits : floats.Number → ℕ
  voltage_bits voltage =
      let abs_voltage = floats.as_float (floats.fabs voltage) in
      let scaled = floats.as_float (floats.times (floats.decimal (pos 64) 0) abs_voltage) in
      let per_step = floats.times (floats.decimal (pos 4) 0) (floats.decimal (pos 1285) 3) in
      let steps = floats.minus (floats.divided scaled per_step) (floats.decimal (pos 1) 0) in
      u16 (floats.as_int16 steps * 2 ^ 2)

  unfoldable pub control_value : floats.Number → ℕ
  control_value voltage =
      if floats.less voltage (floats.decimal (pos 0) 0)
      then bit_and (bit_or (voltage_bits voltage) 1) 0xfffd
      else if floats.less (floats.decimal (pos 0) 0) voltage
      then bit_and (bit_or (voltage_bits voltage) 2) 0xfffe
      else 0

  unfoldable pub set_voltage : MotorId → floats.Number → M (Unit {0})
  set_voltage motor voltage = set_motor_control motor (u8 (control_value (clamped voltage)))

  module _ (hw : Hardware) where
    -- The pins are GPIO numbers below 30, so `int8_t` holds them.
    unfoldable pub drv8830_init : ℕ → ℕ → M (Unit {0})
    drv8830_init gpio_fault1 gpio_fault2 = do
      rp2040_log hw "DRV8830 init\n" []
      modify (λ w. record w {
        motor = record (w.motor) { gpio_fault1 = gpio_fault1; gpio_fault2 = gpio_fault2 };
      })
      call (Event.gpio_init gpio_fault1)
      call (Event.gpio_init gpio_fault2)
      call (Event.gpio_put gpio_fault1 0)
      call (Event.gpio_put gpio_fault2 0)
      call (Event.gpio_set_dir gpio_fault1 false)
      call (Event.gpio_set_dir gpio_fault2 false)
      call (Event.gpio_pull_up gpio_fault1)
      call (Event.gpio_pull_up gpio_fault2)
      call (Event.gpio_set_irq_enabled gpio_fault1 drv8830_irq_mask true)
      call (Event.gpio_set_irq_enabled gpio_fault2 drv8830_irq_mask true)
      set_voltage motor_left (floats.decimal (pos 0) 0)
      set_voltage motor_right (floats.decimal (pos 0) 0)
      rp2040_log hw "DRV8830 init complete\n" []
