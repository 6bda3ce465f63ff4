-- ===== src/Motor.antt =====
-- src/drv8830.c and include/drv8830.h: the two motor drivers on `i2c0`, in the build without
-- DRV8830_SCOPE_TEST. `gpio` arguments and queue data are pin numbers.
pub mod State
pub mod SelfTest
pub mod Scope
pub mod Packing
pub mod Voltage
pub mod Direction
pub mod Faults
use smartphone_robot_firmwar.Base.{
  ℕ, zero, suc, ◌+◌, ℤ, pos, negsuc, Bool, true, false, List, [], ◌∷◌, String, bit_and, ◌==◌, not,
  get_or, set, if◌then◌else◌,
}
use smartphone_robot_firmwar.Board.Sdk.{Event, I2c, i2c0, Arg, EntryFunc}
use smartphone_robot_firmwar.Board.{
  Hardware, World, M, pure, ◌>>=◌, ◌>>◌, assert_false, modify, gets, call, when, rp2040_log,
}
use smartphone_robot_firmwar.Board.I2cRetry.{i2c_write_error_handling, i2c_read_error_handling}
use smartphone_robot_firmwar.Board.Queue.{call_queue_try_add}
use smartphone_robot_firmwar.Motor.State.{MotorState}

abbrev pub motor_left_address : ℕ
motor_left_address = 0x60

abbrev pub motor_right_address : ℕ
motor_right_address = 0x62

abbrev pub drv8830_reg_control : ℕ
drv8830_reg_control = 0

abbrev pub drv8830_reg_fault : ℕ
drv8830_reg_fault = 1

-- `GPIO_IRQ_EDGE_FALL`
abbrev pub drv8830_irq_mask : ℕ
drv8830_irq_mask = 4

pub data MotorId : Type 0 where
  motor_left motor_right : MotorId

abbrev pub address_of : MotorId → ℕ
address_of motor_left = motor_left_address
address_of motor_right = motor_right_address

-- The bits of a fault byte that the driver looks at, and the command that clears it.
abbrev pub clear_command : List ℕ
clear_command = drv8830_reg_fault ∷ 0x80 ∷ []

unfoldable pub set_motor_control : MotorId → ℕ → M (Unit {0})
set_motor_control motor control_value = call (
    Event.i2c_write_blocking i2c0 (address_of motor) (drv8830_reg_control ∷ control_value ∷ [])
      false)

module _ (hw : Hardware) where
  unfoldable pub drv8830_on_interrupt : ℕ → ℕ → M (Unit {0})
  drv8830_on_interrupt gpio event_mask = when (not (bit_and event_mask drv8830_irq_mask == 0)) (do
    call (Event.gpio_acknowledge_irq gpio drv8830_irq_mask)
    call_queue_try_add hw EntryFunc.drv8830_fault_handler gpio
    started ← gets (λ w. w.motor.test_drv8830_started)
    when started (call_queue_try_add hw EntryFunc.drv8830_test_response 1))

  -- The branch of the handler for a motor that is known.
  unfoldable pub handle_fault : ℕ → String → M ℤ
  handle_fault addr motor = do
    i2c_write_error_handling hw i2c0 addr (drv8830_reg_fault ∷ []) true
    bytes ← i2c_read_error_handling hw i2c0 addr 1 false
    let fault_values = get_or bytes 0 0
    let active_fault = not (bit_and fault_values 1 == 0)
    if not active_fault
        then (do i2c_write_error_handling hw i2c0 addr clear_command false; pure (pos 0))
        else (do
          rp2040_log hw "%s motor fault\n" (Arg.str motor ∷ [])
          rp2040_log hw "Fault values for Motor %s: 0x%x\n"
              (Arg.str motor ∷ Arg.num fault_values ∷ [])
          pure (pos 0))

  unfoldable pub drv8830_fault_handler : ℕ → M ℤ
  drv8830_fault_handler gpio = do
    pins ← gets (λ w. w.motor)
    if gpio == pins.gpio_fault1
        then handle_fault motor_left_address "Left"
        else (if gpio == pins.gpio_fault2
            then handle_fault motor_right_address "Right"
            else (do rp2040_log hw "Error: invalid motor fault\n" []; pure (negsuc 0)))

  -- One round of the loop of `drv8830_clear_faults`, from and to the local `fault_value`.
  unfoldable pub clear_fault : ℕ → ℕ → ℕ → M ℕ
  clear_fault i addr fault_value = do
    i2c_write_error_handling hw i2c0 addr clear_command false
    i2c_write_error_handling hw i2c0 addr (drv8830_reg_fault ∷ []) true
    bytes ← i2c_read_error_handling hw i2c0 addr 1 false
    let fault_value' = get_or bytes 0 fault_value
    when (not (bit_and fault_value' 1 == 0)) (do
      rp2040_log hw "ERROR: Motor %d cannot clear faults. Exiting.\n" (Arg.num i ∷ [])
      assert_false)
    pure fault_value'

  unfoldable pub drv8830_clear_faults : M (Unit {0})
  drv8830_clear_faults = do
    fault_value ← clear_fault 0 motor_left_address 1
    _ ← clear_fault 1 motor_right_address fault_value
    pure tt

  -- One round of the loop of `drv8830_get_faults`.
  unfoldable pub read_fault : ℕ → ℕ → M (Unit {0})
  read_fault i addr = do
    i2c_write_error_handling hw i2c0 addr (drv8830_reg_fault ∷ []) true
    bytes ← i2c_read_error_handling hw i2c0 addr 1 false
    modify (λ w. record w {
      motor = record (w.motor) {
        fault_values =
            set w.motor.fault_values i (get_or bytes 0 (get_or w.motor.fault_values i 0));
      };
    })

  unfoldable pub drv8830_get_faults : M (List ℕ)
  drv8830_get_faults = do
    read_fault 0 motor_left_address
    read_fault 1 motor_right_address
    drv8830_clear_faults
    gets (λ w. w.motor.fault_values)

unfoldable pub drv8830_test_response : M ℤ
drv8830_test_response = do
  modify (λ w. record w { motor = record (w.motor) { test_drv8830_completed = true } })
  pure (pos 0)
