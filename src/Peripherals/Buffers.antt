-- ===== src/Peripherals/Buffers.antt =====
-- src/sn74ahc125rgyr.c: the enable pins of the two line buffers.
use smartphone_robot_firmwar.Base.{ℕ, true, [], ◌∷◌}
use smartphone_robot_firmwar.Board.Sdk.{Event}
use smartphone_robot_firmwar.Board.{M, ◌>>◌, call}

unfoldable pub sn74ahc125rgyr_init : ℕ → M (Unit {0})
sn74ahc125rgyr_init gpio = do
  call (Event.gpio_init gpio)
  call (Event.gpio_set_dir gpio true)
  call (Event.gpio_put gpio 1)

unfoldable pub sn74ahc125rgyr_on_end_of_start : ℕ → M (Unit {0})
sn74ahc125rgyr_on_end_of_start gpio = call (Event.gpio_put gpio 0)

unfoldable pub sn74ahc125rgyr_shutdown : ℕ → M (Unit {0})
sn74ahc125rgyr_shutdown gpio = call (Event.setup "gpio_deinit" (gpio ∷ []))
