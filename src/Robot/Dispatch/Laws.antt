-- ===== src/Robot/Dispatch/Laws.antt =====
-- src/robot.c: what every sequence of interrupts and of entries of `call_queue` keeps.
use smartphone_robot_firmwar.Base.{ℕ, List, [], ◌∷◌}
use smartphone_robot_firmwar.Board.Sdk.{EntryFunc}
use smartphone_robot_firmwar.Board.{Hardware, World, M, pure, ◌>>=◌, ◌>>◌}
use smartphone_robot_firmwar.Board.Keeps.{Keeps, keeps, Keeps-pure, Keeps->>=, Keeps->>, Keeps-if}
use smartphone_robot_firmwar.Board.Calm.{Calm}
use smartphone_robot_firmwar.Gauge.Irq.{
  bq27742_g1_rearm_assert_irq, bq27742_g1_queue_parse_interrupt,
}
use smartphone_robot_firmwar.Gauge.Laws.Handlers
use smartphone_robot_firmwar.Usb.Header.{DriverHeader}
use smartphone_robot_firmwar.Usb.Opcode.{
  opcode_queue_add, opcode_queue_pop, bc_ctrl1_read, bc_ctrl2_read, control1_read, cc_ctrl1_read,
  cc_ctrl4_read, gpio_control_read, gpio0_gpio1_adc_read, customer_config_read,
}
use smartphone_robot_firmwar.Usb.Irq.{on_opcode_cmd_response}
use smartphone_robot_firmwar.Usb.Laws.Buffers
use smartphone_robot_firmwar.Usb.Laws.Buffers.{
  test_response-Keeps, simple-Keeps, snk_pdo-Keeps, gpio_set-Keeps, config_write-Keeps,
}
use smartphone_robot_firmwar.Usb.Laws.Commands.{pd_response-Keeps, parse-Keeps}
use smartphone_robot_firmwar.Robot.Dispatch.{
  robot_interrupt_handler, run_entry, stop_core1, as_result,
}
use smartphone_robot_firmwar.Robot.Dispatch.Drivers.{
  drv8830_test_response-Keeps, ncp3901_test_response-Keeps, max77976_test_response-Keeps,
  scope_set_controls-Keeps, drv8830_on_interrupt-Keeps, max77976_on_interrupt-Keeps,
  ncp3901_on_interrupt-Keeps, attached-Keeps, detached-Keeps, fault_handler-Keeps,
  max77976_parse-Keeps,
}

-- An interrupt on core 0, or an entry that core 1 takes from its queue.
pub data Step : Type 0 where
  interrupt : ℕ → ℕ → Step
  entry : EntryFunc → ℕ → Step

module _ (hw : Hardware) (header : DriverHeader) where
  unfoldable pub run_step : Step → M (Unit {0})
  run_step (interrupt gpio event_mask) = robot_interrupt_handler hw gpio event_mask
  run_step (entry func arg) = run_entry hw header func arg >>= λ result. pure tt

  unfoldable pub run_steps : List Step → M (Unit {0})
  run_steps [] = pure tt
  run_steps (s ∷ steps) = run_step s >> run_steps steps

module _ (P : World → Type 0) (calm : Calm P) where
  stop-Keeps : Keeps P stop_core1
  unfolding stop_core1
  stop-Keeps = keeps (λ w h. calm.core1 w _ h)

  as_result-Keeps : (m : M ℕ) → Keeps P m → Keeps P (as_result m)
  as_result-Keeps m h = Keeps->>= P m _ h (λ n. Keeps-pure P _)

  module _ (hw : Hardware) (header : DriverHeader) (rearm : Keeps P bq27742_g1_rearm_assert_irq)
      (queue : Keeps P (bq27742_g1_queue_parse_interrupt hw))
      (add : (func : EntryFunc) (arg : ℕ) → Keeps P (opcode_queue_add hw func arg))
      (pop : Keeps P (opcode_queue_pop hw))
      (response : Keeps P (on_opcode_cmd_response hw header)) where
    interrupt-Keeps : (gpio event_mask : ℕ) → Keeps P (robot_interrupt_handler hw gpio event_mask)
    unfolding robot_interrupt_handler
    interrupt-Keeps gpio event_mask =
        Keeps-if P _ _ _ (ncp3901_on_interrupt-Keeps P calm hw gpio event_mask) (
          Keeps-if P _ _ _ (max77976_on_interrupt-Keeps P calm hw gpio event_mask) (
            Keeps-if P _ _ _ (Buffers.on_interrupt-Keeps P calm hw gpio event_mask) (
              Keeps-if P _ _ _ (Handlers.on_interrupt-Keeps P calm hw rearm queue gpio event_mask) (
                Keeps-if P _ _ _ (drv8830_on_interrupt-Keeps P calm hw gpio event_mask) (
                  Keeps-if P _ _ _ (drv8830_on_interrupt-Keeps P calm hw gpio event_mask)
                    (Keeps-pure P tt))))))

    entry-Keeps : (func : EntryFunc) (arg : ℕ) → Keeps P (run_entry hw header func arg)
    unfolding run_entry bc_ctrl1_read bc_ctrl2_read control1_read cc_ctrl1_read cc_ctrl4_read
        gpio_control_read gpio0_gpio1_adc_read customer_config_read
    entry-Keeps EntryFunc.drv8830_fault_handler arg = fault_handler-Keeps P calm hw arg
    entry-Keeps EntryFunc.drv8830_test_response arg = drv8830_test_response-Keeps P calm
    entry-Keeps EntryFunc.drv8830_scope_set_controls arg = scope_set_controls-Keeps P calm arg
    entry-Keeps EntryFunc.bq27742_g1_parse_interrupt_vals arg =
        as_result-Keeps _ (Handlers.parse-Keeps P calm hw rearm)
    entry-Keeps EntryFunc.ncp3901_on_wireless_charger_attached arg = attached-Keeps P calm hw
    entry-Keeps EntryFunc.ncp3901_on_wireless_charger_detached arg = detached-Keeps P calm hw
    entry-Keeps EntryFunc.ncp3901_test_response arg = ncp3901_test_response-Keeps P calm
    entry-Keeps EntryFunc.max77976_parse_interrupt_vals arg =
        as_result-Keeps _ (max77976_parse-Keeps P calm hw)
    entry-Keeps EntryFunc.max77976_test_response arg = max77976_test_response-Keeps P calm
    entry-Keeps EntryFunc.max77958_parse_interrupt_vals arg =
        as_result-Keeps _ (parse-Keeps P calm hw add pop header response)
    entry-Keeps EntryFunc.max77958_test_response arg = test_response-Keeps P calm
    entry-Keeps EntryFunc.max77958_pd_msg_response arg = pd_response-Keeps P calm hw add pop header
    entry-Keeps EntryFunc.gpio_set arg = gpio_set-Keeps P calm hw header arg
    entry-Keeps EntryFunc.customer_config_write arg = config_write-Keeps P calm hw header
    entry-Keeps EntryFunc.bc_ctrl1_read arg = simple-Keeps P calm hw header 0x01
    entry-Keeps EntryFunc.bc_ctrl2_read arg = simple-Keeps P calm hw header 0x03
    entry-Keeps EntryFunc.control1_read arg = simple-Keeps P calm hw header 0x05
    entry-Keeps EntryFunc.cc_ctrl1_read arg = simple-Keeps P calm hw header 0x0b
    entry-Keeps EntryFunc.cc_ctrl4_read arg = simple-Keeps P calm hw header 0x11
    entry-Keeps EntryFunc.gpio_control_read arg = simple-Keeps P calm hw header 0x23
    entry-Keeps EntryFunc.gpio0_gpio1_adc_read arg = simple-Keeps P calm hw header 0x27
    entry-Keeps EntryFunc.snk_pdo_request arg = snk_pdo-Keeps P calm hw header
    entry-Keeps EntryFunc.customer_config_read arg = simple-Keeps P calm hw header 0x55
    entry-Keeps EntryFunc.stop_core1 arg = stop-Keeps

    pub steps-Keeps : (steps : List Step) → Keeps P (run_steps hw header steps)
    unfolding run_steps run_step
    steps-Keeps [] = Keeps-pure P tt
    steps-Keeps (interrupt gpio event_mask ∷ steps) =
        Keeps->> P _ _ (interrupt-Keeps gpio event_mask) (steps-Keeps steps)
    steps-Keeps (entry func arg ∷ steps) =
        Keeps->> P _ _ (Keeps->>= P _ _ (entry-Keeps func arg) (λ result. Keeps-pure P tt))
          (steps-Keeps steps)
