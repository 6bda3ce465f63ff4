-- ===== src/Robot.antt =====
-- src/robot.c and src/quad_encoders.c: the state that the phone asks for and the motor levels that it
-- sets, in the build for the board (without BOARD_PICO).
pub mod Pins
pub mod Dispatch
pub mod Scan
pub mod Endings
pub mod Start
pub mod Main
pub mod Waits
pub mod Devices
pub mod Collected
pub mod Untouched
use smartphone_robot_firmwar.Base.{ℕ, get_or, if◌then◌else◌, u32}
use smartphone_robot_firmwar.Board.Sdk.{Event}
use smartphone_robot_firmwar.Board.{Hardware, M, pure, ◌>>=◌, ◌>>◌, ask}
use smartphone_robot_firmwar.Motor.{motor_left, motor_right, set_motor_control, drv8830_get_faults}
use smartphone_robot_firmwar.Gauge.Readings.{
  bq27742_g1_get_voltage, bq27742_g1_get_safety_stats, bq27742_g1_get_temp, bq27742_g1_get_soh,
  bq27742_g1_get_flags,
}
use smartphone_robot_firmwar.Charger.Details.{max77976_get_chg_details}
use smartphone_robot_firmwar.Wireless.{
  ncp3901_wireless_charger_attached, ncp3901_adc0, stwlc38jrm_adc1,
}
use smartphone_robot_firmwar.Comm.State.{Rp2040State}

unfoldable pub set_motor_levels : Rp2040State → M (Unit {0})
set_motor_levels state = do
  set_motor_control motor_left state.control_left
  set_motor_control motor_right state.control_right

-- A function that updates the struct behind its pointer returns the new one.
module _ (hw : Hardware) where
  -- The count as the 32-bit pattern that the callers keep.
  unfoldable pub quad_encoder_get_count : ℕ → M ℕ
  quad_encoder_get_count encoder = do
    count ← ask hw.encoder_count (Event.quadrature_encoder_get_count encoder)
    pure (u32 count)

  unfoldable pub get_encoder_counts : Rp2040State → M Rp2040State
  get_encoder_counts state = do
    left ← quad_encoder_get_count 0
    right ← quad_encoder_get_count 1
    pure (record state { encoder_left = left; encoder_right = right })

  unfoldable pub get_motor_faults : Rp2040State → M Rp2040State
  get_motor_faults state = do
    motor_faults ← drv8830_get_faults hw
    pure (record state {
      fault_left = get_or motor_faults 0 0;
      fault_right = get_or motor_faults 1 0;
    })

  unfoldable pub get_battery_state : Rp2040State → M Rp2040State
  get_battery_state state = do
    voltage ← bq27742_g1_get_voltage hw
    safety_status ← bq27742_g1_get_safety_stats hw
    temperature ← bq27742_g1_get_temp hw
    state_of_health ← bq27742_g1_get_soh hw
    flags ← bq27742_g1_get_flags hw
    pure (record state {
      voltage = voltage;
      safety_status = safety_status;
      temperature = temperature;
      state_of_health = state_of_health;
      flags = flags;
    })

  unfoldable pub get_charger_state : Rp2040State → M Rp2040State
  get_charger_state state = do
    chg_details ← max77976_get_chg_details hw
    attached ← ncp3901_wireless_charger_attached
    usb_charger_voltage ← ncp3901_adc0 hw
    vrect ← stwlc38jrm_adc1 hw
    pure (record state {
      max77976_chg_details = chg_details;
      wireless_charger_attached = if attached then 1 else 0;
      usb_charger_voltage = usb_charger_voltage;
      wireless_charger_vrect = vrect;
    })

  unfoldable pub get_state : Rp2040State → M Rp2040State
  get_state state = do
    with_counts ← get_encoder_counts state
    with_faults ← get_motor_faults with_counts
    with_charger ← get_charger_state with_faults
    get_battery_state with_charger
