-- ===== src/Robot/Start.antt =====
-- src/robot.c: start-up, the self tests and shutdown, in the build for the board, without BOARD_PICO,
-- LOGGER_UART and DRV8830_SCOPE_TEST. `fuel` bounds the rounds of each waiting loop.
use smartphone_robot_firmwar.Base.{ℕ, zero, suc, pos, [], ◌∷◌, Option, none, some, if◌then◌else◌}
use smartphone_robot_firmwar.Log
use smartphone_robot_firmwar.Board.Sdk.{Event, i2c0, i2c1}
use smartphone_robot_firmwar.Board.{
  Hardware, World, M, pure, ◌>>=◌, ◌>>◌, modify, call, ask, rp2040_log,
}
use smartphone_robot_firmwar.Robot.Pins.{
  gpio_wireless_available, battery_charger_interrupt_pin, max77958_intb, bq27742_g1_interrupt_pin,
  drv8830_fault1, drv8830_fault2,
}
use smartphone_robot_firmwar.Robot.Dispatch.{signal_stop_core1}
use smartphone_robot_firmwar.Robot.Scan.{i2c_scan}
use smartphone_robot_firmwar.Motor.{motor_left, motor_right}
use smartphone_robot_firmwar.Motor.Voltage.{Floats, set_voltage, drv8830_init}
use smartphone_robot_firmwar.Motor.SelfTest.{test_drv8830_get_faults, test_drv8830_interrupt}
use smartphone_robot_firmwar.Gauge.Irq.{bq27742_g1_init}
use smartphone_robot_firmwar.Gauge.Transfer.{bq27742_g1_fw_version_check, bq27742_g1_shutdown}
use smartphone_robot_firmwar.Wireless.{ncp3901_init, stwlc38jrm_init}
use smartphone_robot_firmwar.Wireless.SelfTest.{test_ncp3901_interrupt}
use smartphone_robot_firmwar.Charger.{max77976_init}
use smartphone_robot_firmwar.Charger.SelfTest.{
  test_max77976_get_id, test_max77976_get_fsw, test_max77976_interrupt,
}
use smartphone_robot_firmwar.Peripherals.Buffers.{
  sn74ahc125rgyr_init, sn74ahc125rgyr_on_end_of_start,
}
use smartphone_robot_firmwar.Encoders.{encoder_init, quad_encoder_update}
use smartphone_robot_firmwar.Usb.Header.{DriverHeader}
use smartphone_robot_firmwar.Usb.Transfer.{read_reg}
use smartphone_robot_firmwar.Usb.Irq.{test_max77958_get_id, max77958_init}
use smartphone_robot_firmwar.Usb.SelfTest.{
  test_max77958_status_block_read_all, test_max77958_interrupt, max77958_shutdown,
}
use smartphone_robot_firmwar.Usb.SelfTest.Reads.{
  test_max77958_bc_ctrl1_read, test_max77958_bc_ctrl2_read, test_max77958_control1_read,
  test_max77958_cc_ctrl1_read, test_max77958_cc_ctrl4_read, test_max77958_gpio_control_read,
  test_max77958_gpio0_gpio1_adc_read, test_max77958_snk_pdo_request,
  test_max77958_get_customer_config,
}
use smartphone_robot_firmwar.Comm.{serial_comm_manager_init, zero_state}

-- What follows a part with waiting loops, if they have ended.
unfoldable pub continue : M (Option (Unit {0})) → Option (Unit {0}) → M (Option (Unit {0}))
continue k none = pure none
continue k (some u) = k

infixr 4 ◌then_run◌
abbrev pub ◌then_run◌ : M (Option (Unit {0})) → M (Option (Unit {0})) → M (Option (Unit {0}))
m then_run k = m >>= continue k

-- A part without such loops.
abbrev pub whole : M (Unit {0}) → M (Option (Unit {0}))
whole m = m >> pure (some tt)

unfoldable pub init_queues : M (Unit {0})
init_queues = do
  call (Event.setup "queue_init call_queue" (256 ∷ []))
  call (Event.setup "queue_init results_queue" (256 ∷ []))

unfoldable pub i2c_start : M (Unit {0})
i2c_start = do
  call (Event.setup "i2c_init i2c0" (400000 ∷ []))
  call (Event.setup "gpio_set_function GPIO_FUNC_I2C" (0 ∷ []))
  call (Event.setup "gpio_set_function GPIO_FUNC_I2C" (1 ∷ []))
  call (Event.gpio_pull_up 0)
  call (Event.gpio_pull_up 1)
  call (Event.setup "i2c_init i2c1" (400000 ∷ []))
  call (Event.setup "gpio_set_function GPIO_FUNC_I2C" (2 ∷ []))
  call (Event.setup "gpio_set_function GPIO_FUNC_I2C" (3 ∷ []))
  call (Event.gpio_pull_up 2)
  call (Event.gpio_pull_up 3)

unfoldable pub i2c_stop : M (Unit {0})
i2c_stop = do
  call (Event.setup "gpio_pull_down" (0 ∷ []))
  call (Event.setup "gpio_pull_down" (1 ∷ []))
  call (Event.setup "gpio_pull_down" (2 ∷ []))
  call (Event.setup "gpio_pull_down" (3 ∷ []))
  call (Event.setup "gpio_set_function GPIO_FUNC_SIO" (0 ∷ []))
  call (Event.setup "gpio_set_function GPIO_FUNC_SIO" (1 ∷ []))
  call (Event.setup "gpio_set_function GPIO_FUNC_SIO" (2 ∷ []))
  call (Event.setup "gpio_set_function GPIO_FUNC_SIO" (3 ∷ []))
  call (Event.setup "i2c_deinit i2c0" [])
  call (Event.setup "i2c_deinit i2c1" [])

module _ (hw : Hardware) where
  unfoldable pub turn_on_leds : M (Unit {0})
  turn_on_leds = do
    call (Event.setup "gpio_set_function GPIO_FUNC_PWM" (21 ∷ []))
    call (Event.setup "pwm_set_wrap" (hw.pwm_slice 21 ∷ 255 ∷ []))
    call (Event.setup "pwm_set_gpio_level" (21 ∷ 128 ∷ []))
    call (Event.setup "pwm_set_enabled" (hw.pwm_slice 21 ∷ 1 ∷ []))

  unfoldable pub results_queue_pop : M (Unit {0})
  results_queue_pop = do
    empty ← ask hw.results_empty Event.results_queue_is_empty
    if empty then pure tt else call Event.results_queue_remove_blocking

  -- The two loops of `free_queues`.
  unfoldable pub drain_results : ℕ → M (Option (Unit {0}))
  drain_results zero = pure none
  drain_results (suc fuel) = do
    empty ← ask hw.results_empty Event.results_queue_is_empty
    if empty then pure (some tt) else (do results_queue_pop; drain_results fuel)

  unfoldable pub await_calls : ℕ → M (Option (Unit {0}))
  await_calls zero = pure none
  await_calls (suc fuel) = do
    empty ← ask hw.call_empty Event.call_queue_is_empty
    if empty then pure (some tt) else (do
      rp2040_log hw "free_queues: call_queue not empty\n" []
      call (Event.sleep_ms 500)
      await_calls fuel)

  unfoldable pub free_queues : ℕ → M (Option (Unit {0}))
  free_queues fuel =
      drain_results fuel
      then_run await_calls fuel
      then_run whole (do
        call (Event.setup "queue_free call_queue" [])
        call (Event.setup "queue_free results_queue" []))

  unfoldable pub update_encoders : ℕ → M (Unit {0})
  update_encoders zero = pure tt
  update_encoders (suc n) = do quad_encoder_update hw; update_encoders n

module _ (hw : Hardware) (header : DriverHeader) (floats : Floats) (others : World → World)
    (fuel : ℕ) where
  unfoldable pub robot_unit_tests : M (Option (Unit {0}))
  robot_unit_tests =
      whole (do
        rp2040_log hw "----------Running robot unit tests-----------\n" []
        test_max77958_get_id hw header
        test_max77958_status_block_read_all hw header)
      then_run test_max77958_bc_ctrl1_read hw others fuel
      then_run test_max77958_bc_ctrl2_read hw others fuel
      then_run test_max77958_control1_read hw others fuel
      then_run test_max77958_cc_ctrl1_read hw others fuel
      then_run test_max77958_cc_ctrl4_read hw others fuel
      then_run test_max77958_gpio_control_read hw others fuel
      then_run test_max77958_gpio0_gpio1_adc_read hw others fuel
      then_run test_max77958_snk_pdo_request hw others fuel
      then_run test_max77958_get_customer_config hw others fuel
      then_run test_max77958_interrupt hw others fuel header
      then_run whole (do test_max77976_get_id hw; test_max77976_get_fsw hw)
      then_run test_max77976_interrupt hw others fuel
      then_run test_ncp3901_interrupt hw others fuel
      then_run whole (test_drv8830_get_faults hw)
      then_run test_drv8830_interrupt hw others fuel
      then_run whole (rp2040_log hw "-----------robot unit tests complete-----------\n" [])

  -- `on_start` up to the self tests.
  unfoldable pub set_up : M (Unit {0})
  set_up = do
    modify (λ w. record w { log_buffer = Log.rp2040_log_init w.log_buffer })
    rp2040_log hw "=== FIRMWARE RESTART ===\n" []
    rp2040_log hw "on_start\n" []
    call (Event.setup "stdio_init_all" [])
    call (Event.setup "stdio_set_translate_crlf" (0 ∷ []))
    call (Event.setup "gpio_set_irq_callback robot_interrupt_handler" [])
    call (Event.setup "irq_set_enabled IO_IRQ_BANK0" (1 ∷ []))
    init_queues
    call (Event.setup "multicore_launch_core1 core1_entry" [])
    i2c_start
    call (Event.setup "adc_init" [])
    turn_on_leds hw
    stwlc38jrm_init 9 27
    ncp3901_init gpio_wireless_available 5
    _ ← max77976_init hw battery_charger_interrupt_pin
    sn74ahc125rgyr_init 8
    sn74ahc125rgyr_init 22
    max77958_init hw header max77958_intb
    call (Event.sleep_ms 1000)
    rp2040_log hw "done waiting 2\n" []
    bq27742_g1_init hw bq27742_g1_interrupt_pin
    bq27742_g1_fw_version_check hw
    sn74ahc125rgyr_on_end_of_start 8
    sn74ahc125rgyr_on_end_of_start 22
    drv8830_init floats hw drv8830_fault1 drv8830_fault2
    call (Event.sleep_ms 1000)
    encoder_init hw
    rp2040_log hw "encoders initialize. Waiting 1 second\n" []
    call (Event.sleep_ms 1000)
    rp2040_log hw "done waiting, Running unit tests.\n" []
    set_voltage floats motor_left (floats.decimal (pos 25) 1)
    set_voltage floats motor_right (floats.decimal (pos 25) 1)
    update_encoders hw 50
    rp2040_log hw "done counting, turning off motors\n" []
    set_voltage floats motor_left (floats.decimal (pos 0) 0)
    set_voltage floats motor_right (floats.decimal (pos 0) 0)

  -- The rest of `on_start`. `rp2040_state` is static, and zero.
  unfoldable pub complete_start : M (Unit {0})
  complete_start = do
    serial_comm_manager_init zero_state
    _ ← i2c_scan hw i2c0
    _ ← i2c_scan hw i2c1
    read_reg hw header 0x9
    read_reg hw header 0xa
    read_reg hw header 0xd
    rp2040_log hw "on_start complete\n" []

  unfoldable pub on_start : M (Option (Unit {0}))
  on_start = whole set_up then_run robot_unit_tests then_run whole complete_start

module _ (hw : Hardware) (others : World → World) (fuel : ℕ) where
  unfoldable pub on_shutdown : M (Option (Unit {0}))
  on_shutdown =
      whole (rp2040_log hw "Shutting down\n" [])
      then_run max77958_shutdown hw others fuel
      then_run whole (do bq27742_g1_shutdown hw; signal_stop_core1 hw)
      then_run free_queues hw fuel
