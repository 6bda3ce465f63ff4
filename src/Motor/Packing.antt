-- ===== src/Motor/Packing.antt =====
-- src/drv8830.c: the two control bytes in one entry of the call queue.
use smartphone_robot_firmwar.Base.{
  ℕ, ◌+◌, ◌*◌, ◌/◌, ◌%◌, ◌<◌, pos, false, [], ◌∷◌, bit_and, u8, ◌≡◌, refl, arith,
}
use smartphone_robot_firmwar.Bits.{bit_and-ones, bit_or-high_low}
use smartphone_robot_firmwar.Board.Sdk.{Event, i2c0}
use smartphone_robot_firmwar.Board.{World, ok}
use smartphone_robot_firmwar.Board.Bus.{after}
use smartphone_robot_firmwar.Motor.{set_motor_control}
use smartphone_robot_firmwar.Motor.Scope.{packed_controls, drv8830_scope_set_controls}

packed_sum : (left right : ℕ) → right < 256 → packed_controls left right ≡ left * 256 + right
unfolding packed_controls
packed_sum left right h = bit_or-high_low 8 left right h

low_byte : (n : ℕ) → u8 (bit_and n 0xff) ≡ n % 256
low_byte n = omega (arith, bit_and-ones n 8)

-- For two bytes, the entry that drv8830_scope_queue_controls packs makes drv8830_scope_set_controls
-- write exactly these two bytes, the left motor's first.
pub drv8830_scope_set_controls-packed :
    (left right : ℕ) (w : World)
    → left < 256
    → right < 256
    → drv8830_scope_set_controls (packed_controls left right) w
      ≡ ok (pos 0) (
          after
            (after w (Event.i2c_write_blocking i2c0 0x60 (0 ∷ left ∷ []) false))
            (Event.i2c_write_blocking i2c0 0x62 (0 ∷ right ∷ []) false))
unfolding drv8830_scope_set_controls set_motor_control
drv8830_scope_set_controls-packed left right w hl hr =
    rw
      (
        packed_sum left right hr,
        low_byte (left * 256 + right),
        low_byte ((left * 256 + right) / 256),
        high_part,
        low_part,
      )
      refl
  where
    high_part : (left * 256 + right) / 256 % 256 ≡ left
    high_part = omega arith

    low_part : (left * 256 + right) % 256 ≡ right
    low_part = omega arith
