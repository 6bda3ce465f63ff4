-- ===== src/Peripherals/Regulator.antt =====
-- src/max77857.c and include/max77857.h: the set-up of the regulator on `i2c1`.
use smartphone_robot_firmwar.Base.{ℕ, [], ◌∷◌, false}
use smartphone_robot_firmwar.BitOps.{bit_set_range}
use smartphone_robot_firmwar.Board.Sdk.{i2c1}
use smartphone_robot_firmwar.Board.{Hardware, M}
use smartphone_robot_firmwar.Board.I2cRetry.{i2c_write_error_handling}

-- CONT1 with the current limit, then the compensation, then the frequency put into its field.
unfoldable pub cont1 : ℕ
cont1 = bit_set_range (bit_set_range (bit_set_range 0x50 0 2 0x5) 5 7 0x2) 3 3 0x2

module _ (hw : Hardware) where
  unfoldable pub max77857_init : M (Unit {0})
  max77857_init = i2c_write_error_handling hw i2c1 0x66 (0x12 ∷ cont1 ∷ []) false
