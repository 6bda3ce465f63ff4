-- ===== src/Robot/Collected.antt =====
-- src/robot.c: the state that `get_state` collects, field by field from the devices.
use smartphone_robot_firmwar.Base.{
  ℕ, List, [], ◌∷◌, Bool, if◌then◌else◌, u16, u32, ◌≡◌, refl, ◌∙◌, ap, sym,
}
use smartphone_robot_firmwar.Board.Sdk.{Event}
use smartphone_robot_firmwar.Board.{Hardware, World, ok, pure, ◌>>=◌}
use smartphone_robot_firmwar.Board.Bus.{bind_ok}
use smartphone_robot_firmwar.Board.Gives.{
  Result, Gives, Gives-pure, Gives-bind, Result-bind, bind-Result,
}
use smartphone_robot_firmwar.Comm.State.{Rp2040State}
use smartphone_robot_firmwar.Motor.{motor_left_address, motor_right_address, drv8830_get_faults}
use smartphone_robot_firmwar.Motor.Faults.{queried, sent_clear, answer, drv8830_get_faults_lem}
use smartphone_robot_firmwar.Charger.Details.{chg_cnfg_from, max77976_get_chg_details}
use smartphone_robot_firmwar.Wireless.{
  ncp3901_wireless_charger_attached, ncp3901_adc0, stwlc38jrm_adc1,
}
use smartphone_robot_firmwar.Gauge.Readings.{
  bq27742_g1_get_voltage, bq27742_g1_get_temp, bq27742_g1_get_flags, bq27742_g1_get_safety_stats,
  bq27742_g1_get_soh,
}
use smartphone_robot_firmwar.Robot.{
  quad_encoder_get_count, get_encoder_counts, get_motor_faults, get_battery_state,
  get_charger_state, get_state,
}
use smartphone_robot_firmwar.Robot.Untouched.{details-Keeps}
use smartphone_robot_firmwar.Robot.Devices.{
  Devices, Answers, gauge_byte, gauge_word, voltage-Gives, safety-Gives, temp-Gives, soh-Gives,
  get_flags-Gives, adc0-Gives, adc1-Gives, details-Gives,
}

-- The calls before the faults are read, and those after.
abbrev pub counted : List Event → List Event
counted t = Event.quadrature_encoder_get_count 1 ∷ Event.quadrature_encoder_get_count 0 ∷ t

abbrev faults_read : List Event → List Event
faults_read t =
    let h2 = queried motor_right_address (queried motor_left_address (counted t)) in
    let h3 = queried motor_left_address (sent_clear motor_left_address h2) in
    queried motor_right_address (sent_clear motor_right_address h3)

module _ (hw : Hardware) (d : Devices) where
  -- The state that the devices hold. `a` and `b` are the fault bytes of the last time, which stay where
  -- a register gives no byte.
  abbrev pub held : ℕ → ℕ → Rp2040State → World → Rp2040State
  held a b s w = record {
    control_left = s.control_left;
    control_right = s.control_right;
    fault_left = answer hw (queried motor_left_address (counted w.trace)) a;
    fault_right =
        answer hw (queried motor_right_address (queried motor_left_address (counted w.trace))) b;
    encoder_left = u32 (d.count 0);
    encoder_right = u32 (d.count 1);
    voltage = gauge_word d 0x08;
    safety_status = gauge_byte d 0x1a;
    temperature = 0;
    state_of_health = gauge_byte d 0x2e;
    flags = gauge_word d 0x0a;
    max77976_chg_details = chg_cnfg_from hw d.behind;
    wireless_charger_attached = if w.wireless.wireless_charger_attached then 1 else 0;
    usb_charger_voltage = u16 (d.voltage 0);
    wireless_charger_vrect = u16 (d.voltage 1);
  }

  -- The state after each of the four parts.
  abbrev with_counts : Rp2040State → Rp2040State
  with_counts s = record s { encoder_left = u32 (d.count 0); encoder_right = u32 (d.count 1) }

  abbrev with_charger : Bool → Rp2040State → Rp2040State
  with_charger attached s = record s {
    max77976_chg_details = chg_cnfg_from hw d.behind;
    wireless_charger_attached = if attached then 1 else 0;
    usb_charger_voltage = u16 (d.voltage 0);
    wireless_charger_vrect = u16 (d.voltage 1);
  }

  abbrev with_battery : Rp2040State → Rp2040State
  with_battery s = record s {
    voltage = gauge_word d 0x08;
    safety_status = gauge_byte d 0x1a;
    temperature = 0;
    state_of_health = gauge_byte d 0x2e;
    flags = gauge_word d 0x0a;
  }

  module _ (answers : Answers hw d) where
    counts_lem :
        (s : Rp2040State) (w : World)
        → get_encoder_counts hw s w ≡ ok (with_counts s) (record w { trace = counted w.trace })
    unfolding get_encoder_counts quad_encoder_get_count
    counts_lem s w =
        rw
          (
            answers.count 0 w.trace,
            answers.count 1 (Event.quadrature_encoder_get_count 0 ∷ w.trace),
          )
          refl

    faults_lem :
        (a b : ℕ) (w : World)
        → w.motor.fault_values ≡ a ∷ b ∷ []
        → drv8830_get_faults hw (record w { trace = counted w.trace }) ≡ (
            let h1 = queried motor_left_address (counted w.trace) in
            let both = answer hw h1 a ∷ answer hw (queried motor_right_address h1) b ∷ [] in
            ok both (record w {
              trace = faults_read w.trace;
              motor = record (w.motor) { fault_values = both };
            }))
    faults_lem a b w e =
        drv8830_get_faults_lem hw (record w { trace = counted w.trace }) answers.acks
        ∙ simp (
          e,
          answers.clears motor_left_address
              (queried motor_right_address (queried motor_left_address (counted w.trace))),
          answers.clears motor_right_address (
              queried motor_left_address (
                sent_clear motor_left_address
                  (queried motor_right_address (queried motor_left_address (counted w.trace))))),
        )

    battery-Gives : (s : Rp2040State) → Gives (λ r. r ≡ with_battery s) (get_battery_state hw s)
    unfolding get_battery_state
    battery-Gives s =
        Gives-bind _ _ (bq27742_g1_get_voltage hw) _ (voltage-Gives hw d answers) (λ v e1.
          Gives-bind _ _ (bq27742_g1_get_safety_stats hw) _ (safety-Gives hw d answers) (λ k e2.
            Gives-bind _ _ (bq27742_g1_get_temp hw) _ (temp-Gives hw d answers) (λ t e3.
              Gives-bind _ _ (bq27742_g1_get_soh hw) _ (soh-Gives hw d answers) (λ o e4.
                Gives-bind _ _ (bq27742_g1_get_flags hw) _ (get_flags-Gives hw d answers)
                  (λ f e5. Gives-pure _ _ (rw (e1, e2, e3, e4, e5) refl))))))

    voltages-Gives :
        (s : Rp2040State) (details : ℕ) (attached : Bool)
        → details ≡ chg_cnfg_from hw d.behind
        → Gives
            (λ r. r ≡ with_charger attached s)
            (do
              usb ← ncp3901_adc0 hw
              vrect ← stwlc38jrm_adc1 hw
              pure (record s {
                max77976_chg_details = details;
                wireless_charger_attached = if attached then 1 else 0;
                usb_charger_voltage = usb;
                wireless_charger_vrect = vrect;
              }))
    voltages-Gives s details attached e =
        Gives-bind _ _ (ncp3901_adc0 hw) _ (adc0-Gives hw d answers) (λ u e1.
          Gives-bind _ _ (stwlc38jrm_adc1 hw) _ (adc1-Gives hw d answers)
            (λ v e2. Gives-pure _ _ (rw (e, e1, e2) refl)))

    charger-Result :
        (s : Rp2040State) (w : World)
        → Result
            (λ r. r ≡ with_charger w.wireless.wireless_charger_attached s)
            (get_charger_state hw s w)
    unfolding get_charger_state ncp3901_wireless_charger_attached
    charger-Result s w =
        Result-bind (λ w'. w'.wireless ≡ w.wireless) (λ v. v ≡ chg_cnfg_from hw d.behind) _
          (max77976_get_chg_details hw w) _ ((details-Keeps (λ c u. u ≡ w.wireless) hw).at w refl)
          ((details-Gives hw d answers).at w)
          (λ v w' same e.
            rw (ap (λ u. u.wireless_charger_attached) (sym same))
              ((voltages-Gives s v w'.wireless.wireless_charger_attached e).at w'))

    motor_lem :
        (a b : ℕ) (s : Rp2040State) (w : World)
        → w.motor.fault_values ≡ a ∷ b ∷ []
        → get_motor_faults hw s (record w { trace = counted w.trace }) ≡ (
            let h1 = queried motor_left_address (counted w.trace) in
            let left = answer hw h1 a in
            let right = answer hw (queried motor_right_address h1) b in
            ok
              (record s { fault_left = left; fault_right = right })
              (record w {
                trace = faults_read w.trace;
                motor = record (w.motor) { fault_values = left ∷ right ∷ [] };
              }))
    unfolding get_motor_faults
    motor_lem a b s w e =
        bind_ok (drv8830_get_faults hw) _ (record w { trace = counted w.trace }) _ _
          (faults_lem a b w e)

    rest-Result :
        (s : Rp2040State) (w : World)
        → Result
            (λ r. r ≡ with_battery (with_charger w.wireless.wireless_charger_attached s))
            ((get_charger_state hw s >>= get_battery_state hw) w)
    rest-Result s w =
        let collected = with_charger w.wireless.wireless_charger_attached s in
        bind-Result (λ r. r ≡ collected) _ (get_charger_state hw s w) (get_battery_state hw)
          (charger-Result s w) (λ r e. rw e (battery-Gives collected))

    pub get_state-Result :
        (a b : ℕ) (s : Rp2040State) (w : World)
        → w.motor.fault_values ≡ a ∷ b ∷ []
        → Result (λ r. r ≡ held a b s w) (get_state hw s w)
    unfolding get_state
    get_state-Result a b s w e = rw (bind_ok (get_encoder_counts hw s) _ w _ _ (counts_lem s w)) (
        rw
          (bind_ok (get_motor_faults hw (with_counts s)) _ _ _ _
            (motor_lem a b (with_counts s) w e))
          (rest-Result _ _))
