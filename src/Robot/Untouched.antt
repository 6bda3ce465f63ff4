-- ===== src/Robot/Untouched.antt =====
-- The state that is collected for the phone leaves the memory of the serial link and of
-- the wireless charger alone.
use smartphone_robot_firmwar.Base.{
  ℕ, Bool, true, false, List, [], ◌∷◌, String, get_or, bit_and, not, ◌==◌,
}
use smartphone_robot_firmwar.Board.Sdk.{Event, I2c, i2c0, Arg}
use smartphone_robot_firmwar.Board.{Hardware, World, call, when, gets, assert_false, rp2040_log}
use smartphone_robot_firmwar.Board.I2cRetry.{i2c_write_error_handling, i2c_read_error_handling}
use smartphone_robot_firmwar.Board.Keeps.{
  Keeps, keeps, Stable, Keeps-pure, Keeps->>=, Keeps->>, Keeps-gets, Keeps-when, Keeps-if,
  Keeps-call, Keeps-rp2040_log, Keeps-i2c_write, Keeps-i2c_read,
}
use smartphone_robot_firmwar.Wireless.State.{WirelessState}
use smartphone_robot_firmwar.Comm.State.{CommState, Rp2040State}
use smartphone_robot_firmwar.Motor.{
  drv8830_get_faults, drv8830_clear_faults, read_fault, clear_fault, set_motor_control,
}
use smartphone_robot_firmwar.Gauge.Transfer.{bq27742_g1_read_bytes}
use smartphone_robot_firmwar.Gauge.Readings.{
  log_set_flags, is_set, set_temperature, bq27742_g1_get_voltage, bq27742_g1_get_safety_stats,
  bq27742_g1_get_temp, bq27742_g1_get_soh, bq27742_g1_get_flags,
}
use smartphone_robot_firmwar.Charger.Details.{
  log_case, max77976_read_register, log_chgin, log_charge, log_bypass, max77976_get_chg_details,
}
use smartphone_robot_firmwar.Wireless.{
  ncp3901_wireless_charger_attached, ncp3901_adc0, stwlc38jrm_adc1,
}
use smartphone_robot_firmwar.Robot.{
  set_motor_levels, quad_encoder_get_count, get_encoder_counts, get_motor_faults, get_battery_state,
  get_charger_state, get_state,
}

module _ (Q : CommState → WirelessState → Type 0) (hw : Hardware) where
  abbrev pub P : World → Type 0
  P w = Q w.comm w.wireless

  abbrev pub Any : Event → Type 0
  Any e = Unit {0}

  pub untouched : Stable P Any
  untouched = record {
    quiet = λ w e q h. h;
    logs = λ hw' w m args h. h;
    enter = tt;
    exit = tt;
    nap = tt;
  }

  pub log-Keeps : (m : String) (args : List Arg) → Keeps P (rp2040_log hw m args)
  log-Keeps m args = Keeps-rp2040_log P Any untouched hw m args

  pub call-Keeps : (e : Event) → Keeps P (call e)
  call-Keeps e = Keeps-call P Any untouched e tt

  write-Keeps :
      (i2c : I2c) (addr : ℕ) (src : List ℕ) (nostop : Bool)
      → Keeps P (i2c_write_error_handling hw i2c addr src nostop)
  write-Keeps i2c addr src nostop = Keeps-i2c_write P Any untouched hw i2c addr src nostop tt

  i2c_read-Keeps :
      (i2c : I2c) (addr len : ℕ) (nostop : Bool)
      → Keeps P (i2c_read_error_handling hw i2c addr len nostop)
  i2c_read-Keeps i2c addr len nostop = Keeps-i2c_read P Any untouched hw i2c addr len nostop tt

  adc0-Keeps : Keeps P (ncp3901_adc0 hw)
  unfolding ncp3901_adc0
  adc0-Keeps = keeps (λ w h. h)

  adc1-Keeps : Keeps P (stwlc38jrm_adc1 hw)
  unfolding stwlc38jrm_adc1
  adc1-Keeps = keeps (λ w h. h)

  attached-Keeps : Keeps P ncp3901_wireless_charger_attached
  unfolding ncp3901_wireless_charger_attached
  attached-Keeps = keeps (λ w h. h)

  counts-Keeps : (s : Rp2040State) → Keeps P (get_encoder_counts hw s)
  unfolding get_encoder_counts quad_encoder_get_count
  counts-Keeps s = keeps (λ w h. h)

  pub levels-Keeps : (s : Rp2040State) → Keeps P (set_motor_levels s)
  unfolding set_motor_levels set_motor_control
  levels-Keeps s = keeps (λ w h. h)

  bytes-Keeps : (command len : ℕ) → Keeps P (bq27742_g1_read_bytes hw command len)
  unfolding bq27742_g1_read_bytes
  bytes-Keeps command len = search (Keeps->>, write-Keeps, i2c_read-Keeps)

  flags-Keeps : (flags : ℕ) (rows : List (ℕ × String)) → Keeps P (log_set_flags hw flags rows)
  unfolding log_set_flags
  flags-Keeps flags [] = Keeps-pure P false
  flags-Keeps flags ((mask, message) ∷ rows) =
      Keeps->> P (when (is_set flags mask) (rp2040_log hw message [])) _
        (Keeps-when P (is_set flags mask) (rp2040_log hw message []) (log-Keeps message []))
        (Keeps->>= P (log_set_flags hw flags rows) _ (flags-Keeps flags rows) (λ b. Keeps-pure P _))

  when_log-Keeps : (b : Bool) (m : String) → Keeps P (when b (rp2040_log hw m []))
  when_log-Keeps b m = Keeps-when P b (rp2040_log hw m []) (log-Keeps m [])

  voltage-Keeps : Keeps P (bq27742_g1_get_voltage hw)
  unfolding bq27742_g1_get_voltage
  voltage-Keeps = search (Keeps->>, Keeps->>=, Keeps-pure, bytes-Keeps, log-Keeps)

  safety-Keeps : Keeps P (bq27742_g1_get_safety_stats hw)
  unfolding bq27742_g1_get_safety_stats
  safety-Keeps =
      search (Keeps->>, Keeps->>=, Keeps-pure, bytes-Keeps, log-Keeps, flags-Keeps, when_log-Keeps)
        depth 9

  temperature-Keeps : (f : ℕ → ℕ) → Keeps P (set_temperature f)
  temperature-Keeps f = keeps (λ w h. h)

  read_temperature-Keeps : Keeps P (gets (λ w. w.gauge.temperature))
  read_temperature-Keeps = keeps (λ w h. h)

  temp-Keeps : Keeps P (bq27742_g1_get_temp hw)
  unfolding bq27742_g1_get_temp
  temp-Keeps =
      search
        (
          Keeps->>, Keeps->>=, Keeps-gets, temperature-Keeps, read_temperature-Keeps, bytes-Keeps,
          log-Keeps,
        )
        depth 9

  soh-Keeps : Keeps P (bq27742_g1_get_soh hw)
  unfolding bq27742_g1_get_soh
  soh-Keeps = search (Keeps->>, Keeps->>=, Keeps-pure, bytes-Keeps, log-Keeps) depth 9

  get_flags-Keeps : Keeps P (bq27742_g1_get_flags hw)
  unfolding bq27742_g1_get_flags
  get_flags-Keeps =
      search (Keeps->>, Keeps->>=, Keeps-pure, bytes-Keeps, log-Keeps, flags-Keeps, when_log-Keeps)
        depth 9

  battery-Keeps : (s : Rp2040State) → Keeps P (get_battery_state hw s)
  unfolding get_battery_state
  battery-Keeps s =
      search
        (Keeps->>=, Keeps-pure, voltage-Keeps, safety-Keeps, temp-Keeps, soh-Keeps, get_flags-Keeps)
        depth 9

  case-Keeps : (value : ℕ) (rows : List (ℕ × String)) → Keeps P (log_case hw value rows)
  unfolding log_case
  case-Keeps value [] = Keeps-pure P tt
  case-Keeps value ((label, message) ∷ rows) =
      Keeps-if P (value == label) (rp2040_log hw message []) (log_case hw value rows)
        (log-Keeps message []) (case-Keeps value rows)

  register-Keeps : (register old : ℕ) → Keeps P (max77976_read_register hw register old)
  unfolding max77976_read_register
  register-Keeps register old =
      search (Keeps->>, Keeps->>=, Keeps-pure, write-Keeps, i2c_read-Keeps)

  chgin-Keeps : (details : ℕ) → Keeps P (log_chgin hw details)
  unfolding log_chgin
  chgin-Keeps details = search (Keeps->>, log-Keeps, case-Keeps) depth 20

  charge-Keeps : (details : ℕ) → Keeps P (log_charge hw details)
  unfolding log_charge
  charge-Keeps details = search (Keeps->>, log-Keeps, case-Keeps) depth 20

  bypass-Keeps : (details : ℕ) → Keeps P (log_bypass hw details)
  unfolding log_bypass
  bypass-Keeps details = search (Keeps->>, log-Keeps, case-Keeps) depth 20

  pub details-Keeps : Keeps P (max77976_get_chg_details hw)
  unfolding max77976_get_chg_details
  details-Keeps =
      search
        (
          Keeps->>, Keeps->>=, Keeps-gets, Keeps-pure, register-Keeps, chgin-Keeps, charge-Keeps,
          bypass-Keeps, log-Keeps,
        )
        depth 20

  pub charger-Keeps : (s : Rp2040State) → Keeps P (get_charger_state hw s)
  unfolding get_charger_state
  charger-Keeps s =
      search (Keeps->>=, Keeps-pure, details-Keeps, attached-Keeps, adc0-Keeps, adc1-Keeps) depth 9

  read_fault-Keeps : (i addr : ℕ) → Keeps P (read_fault hw i addr)
  unfolding read_fault
  read_fault-Keeps i addr =
      Keeps->> P _ _ (write-Keeps i2c0 addr _ true)
        (Keeps->>= P _ _ (i2c_read-Keeps i2c0 addr 1 false) (λ bytes. keeps (λ w h. h)))

  assert-Keeps : Keeps {A = Unit {0}} P assert_false
  assert-Keeps = keeps (λ w h. h)

  clear_fault-Keeps : (i addr fault_value : ℕ) → Keeps P (clear_fault hw i addr fault_value)
  unfolding clear_fault
  clear_fault-Keeps i addr fault_value = Keeps->> P _ _ (write-Keeps i2c0 addr _ false) (
      Keeps->> P _ _ (write-Keeps i2c0 addr _ true) (
        Keeps->>= P _ _ (i2c_read-Keeps i2c0 addr 1 false) (λ bytes.
          Keeps->> P _ _
            (Keeps-when P (not (bit_and (get_or bytes 0 fault_value) 1 == 0)) _ (
              Keeps->> P _ _
                (log-Keeps "ERROR: Motor %d cannot clear faults. Exiting.\n" (Arg.num i ∷ []))
                assert-Keeps))
            (Keeps-pure P _))))

  faults-Keeps : Keeps P (drv8830_get_faults hw)
  unfolding drv8830_get_faults drv8830_clear_faults
  faults-Keeps =
      search (Keeps->>, Keeps->>=, Keeps-pure, read_fault-Keeps, clear_fault-Keeps) depth 9

  motor-Keeps : (s : Rp2040State) → Keeps P (get_motor_faults hw s)
  unfolding get_motor_faults
  motor-Keeps s = search (Keeps->>=, Keeps-pure, faults-Keeps)

  pub get_state-Keeps : (s : Rp2040State) → Keeps P (get_state hw s)
  unfolding get_state
  get_state-Keeps s =
      search (Keeps->>=, counts-Keeps, motor-Keeps, charger-Keeps, battery-Keeps) depth 9
