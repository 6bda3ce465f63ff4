-- ===== src/Robot/Dispatch.antt =====
-- src/robot.c: the interrupt handler of core 0, the loop of core 1 that runs what is in `call_queue`, and
-- the end of it. The address of a function in an entry is a constructor of `EntryFunc`.
pub mod Drivers
pub mod Laws
pub mod Edges
pub mod Finished
use smartphone_robot_firmwar.Base.{
  ℕ, zero, suc, ℤ, pos, Bool, true, false, List, [], ◌∷◌, ◌==◌, if◌then◌else◌,
}
use smartphone_robot_firmwar.Board.Sdk.{Event, EntryFunc, QueueEntry}
use smartphone_robot_firmwar.Board.{
  Hardware, World, M, pure, ◌>>=◌, ◌>>◌, assert_false, modify, gets, ask, rp2040_log, queue_try_add,
}
use smartphone_robot_firmwar.Robot.Pins.{
  gpio_wireless_available, battery_charger_interrupt_pin, max77958_intb, bq27742_g1_interrupt_pin,
  drv8830_fault1, drv8830_fault2,
}
use smartphone_robot_firmwar.Motor.{
  drv8830_on_interrupt, drv8830_fault_handler, drv8830_test_response,
}
use smartphone_robot_firmwar.Motor.Scope.{drv8830_scope_set_controls}
use smartphone_robot_firmwar.Gauge.Irq.{bq27742_g1_on_interrupt, bq27742_g1_parse_interrupt_vals}
use smartphone_robot_firmwar.Wireless.{
  ncp3901_on_wireless_charger_interrupt, ncp3901_on_wireless_charger_attached,
  ncp3901_on_wireless_charger_detached, ncp3901_test_response,
}
use smartphone_robot_firmwar.Charger.{
  max77976_on_battery_charger_interrupt, max77976_parse_interrupt_vals, max77976_test_response,
}
use smartphone_robot_firmwar.Usb.Header.{DriverHeader}
use smartphone_robot_firmwar.Usb.Opcode.{
  gpio_set, customer_config_write, bc_ctrl1_read, bc_ctrl2_read, control1_read, cc_ctrl1_read,
  cc_ctrl4_read, gpio_control_read, gpio0_gpio1_adc_read, snk_pdo_request, customer_config_read,
}
use smartphone_robot_firmwar.Usb.Irq.{
  max77958_on_interrupt, parse_interrupt_vals, pd_msg_response, max77958_test_response,
}

unfoldable pub stop_core1 : M ℤ
stop_core1 = do modify (λ w. record w { core1_shutdown_requested = true }); pure (pos 0)

-- A `uint16_t` or `uint32_t` result below 2^31 as the `int32_t` of the queue.
abbrev pub as_result : M ℕ → M ℤ
as_result m = m >>= λ n. pure (pos n)

module _ (hw : Hardware) where
  unfoldable pub robot_interrupt_handler : ℕ → ℕ → M (Unit {0})
  robot_interrupt_handler gpio event_mask =
      if gpio == gpio_wireless_available
      then ncp3901_on_wireless_charger_interrupt hw gpio event_mask
      else (if gpio == battery_charger_interrupt_pin
          then max77976_on_battery_charger_interrupt hw gpio event_mask
          else (if gpio == max77958_intb
              then max77958_on_interrupt hw gpio event_mask
              else (if gpio == bq27742_g1_interrupt_pin
                  then bq27742_g1_on_interrupt hw gpio event_mask
                  else (if gpio == drv8830_fault1
                      then drv8830_on_interrupt hw gpio event_mask
                      else (if gpio == drv8830_fault2
                          then drv8830_on_interrupt hw gpio event_mask
                          else pure tt)))))

  unfoldable pub results_queue_try_add : EntryFunc → ℕ → M (Unit {0})
  results_queue_try_add func arg = do
    added ← ask hw.results_accepts (Event.results_queue_try_add func arg)
    if added then pure tt else (do rp2040_log hw "ERROR:results_queue is full" []; assert_false)

  unfoldable pub signal_stop_core1 : M (Unit {0})
  signal_stop_core1 = do
    added ← queue_try_add hw EntryFunc.stop_core1 0
    if added then pure tt else (do rp2040_log hw "ERROR: call_queue is full" []; assert_false)

  module _ (header : DriverHeader) where
    -- `entry.func(entry.data)`
    unfoldable pub run_entry : EntryFunc → ℕ → M ℤ
    run_entry EntryFunc.drv8830_fault_handler arg = drv8830_fault_handler hw arg
    run_entry EntryFunc.drv8830_test_response arg = drv8830_test_response
    run_entry EntryFunc.drv8830_scope_set_controls arg = drv8830_scope_set_controls arg
    run_entry EntryFunc.bq27742_g1_parse_interrupt_vals arg =
        as_result (bq27742_g1_parse_interrupt_vals hw)
    run_entry EntryFunc.ncp3901_on_wireless_charger_attached arg =
        ncp3901_on_wireless_charger_attached hw
    run_entry EntryFunc.ncp3901_on_wireless_charger_detached arg =
        ncp3901_on_wireless_charger_detached hw
    run_entry EntryFunc.ncp3901_test_response arg = ncp3901_test_response
    run_entry EntryFunc.max77976_parse_interrupt_vals arg =
        as_result (max77976_parse_interrupt_vals hw)
    run_entry EntryFunc.max77976_test_response arg = max77976_test_response
    run_entry EntryFunc.max77958_parse_interrupt_vals arg =
        as_result (parse_interrupt_vals hw header)
    run_entry EntryFunc.max77958_test_response arg = max77958_test_response
    run_entry EntryFunc.max77958_pd_msg_response arg = pd_msg_response hw header
    run_entry EntryFunc.gpio_set arg = gpio_set hw header arg
    run_entry EntryFunc.customer_config_write arg = customer_config_write hw header
    run_entry EntryFunc.bc_ctrl1_read arg = bc_ctrl1_read hw header
    run_entry EntryFunc.bc_ctrl2_read arg = bc_ctrl2_read hw header
    run_entry EntryFunc.control1_read arg = control1_read hw header
    run_entry EntryFunc.cc_ctrl1_read arg = cc_ctrl1_read hw header
    run_entry EntryFunc.cc_ctrl4_read arg = cc_ctrl4_read hw header
    run_entry EntryFunc.gpio_control_read arg = gpio_control_read hw header
    run_entry EntryFunc.gpio0_gpio1_adc_read arg = gpio0_gpio1_adc_read hw header
    run_entry EntryFunc.snk_pdo_request arg = snk_pdo_request hw header
    run_entry EntryFunc.customer_config_read arg = customer_config_read hw header
    run_entry EntryFunc.stop_core1 arg = stop_core1

    unfoldable pub call_queue_pop : M ℤ
    call_queue_pop = do
      entry ← ask hw.call_entry Event.call_queue_remove_blocking
      run_entry entry.func entry.arg

    -- The loop of core 1 for at most `fuel` entries; whether it has ended.
    unfoldable pub core1_entry : ℕ → M Bool
    core1_entry zero = pure false
    core1_entry (suc fuel) = do
      stop ← gets (λ w. w.core1_shutdown_requested)
      if stop then pure true else (do _ ← call_queue_pop; core1_entry fuel)
