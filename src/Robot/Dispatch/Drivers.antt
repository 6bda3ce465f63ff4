-- ===== src/Robot/Dispatch/Drivers.antt =====
-- src/drv8830.c, src/ncp3901.c and src/max77976.c: their interrupt handlers and the functions that they
-- queue keep what they do not speak of.
use smartphone_robot_firmwar.Base.{ℕ, Bool, false, List, [], ◌∷◌, String, refl}
use smartphone_robot_firmwar.Board.Sdk.{Event, i2c0, EntryFunc}
use smartphone_robot_firmwar.Board.{Hardware, World, ◌>>=◌, gets, modify, when}
use smartphone_robot_firmwar.Board.Queue.{call_queue_try_add}
use smartphone_robot_firmwar.Charger.State.{ChargerState}
use smartphone_robot_firmwar.Board.Keeps.{
  Keeps, keeps, Keeps-pure, Keeps->>=, Keeps->>, Keeps-gets, Keeps-when, Keeps-if,
}
use smartphone_robot_firmwar.Board.Calm.{
  Calm, ack-Keeps, log-Keeps, write-Keeps, read-Keeps, call_queue-Keeps,
}
use smartphone_robot_firmwar.Motor.{
  MotorId, set_motor_control, drv8830_on_interrupt, drv8830_fault_handler, handle_fault,
  drv8830_test_response,
}
use smartphone_robot_firmwar.Motor.Scope.{drv8830_scope_set_controls}
use smartphone_robot_firmwar.Wireless.{
  edge_branch, ncp3901_on_wireless_charger_interrupt, ncp3901_on_wireless_charger_attached,
  ncp3901_on_wireless_charger_detached, ncp3901_test_response,
}
use smartphone_robot_firmwar.Charger.{
  InterruptRow, max77976_on_battery_charger_interrupt, max77976_parse_interrupt_vals,
  max77976_get_interrupt_vals, log_rows, max77976_test_response,
}

module _ (P : World → Type 0) (calm : Calm P) where
  pub drv8830_test_response-Keeps : Keeps P drv8830_test_response
  unfolding drv8830_test_response
  drv8830_test_response-Keeps = keeps (λ w h. calm.motor w _ h)

  pub ncp3901_test_response-Keeps : Keeps P ncp3901_test_response
  unfolding ncp3901_test_response
  ncp3901_test_response-Keeps = keeps (λ w h. calm.wireless w _ h)

  pub max77976_test_response-Keeps : Keeps P max77976_test_response
  unfolding max77976_test_response
  max77976_test_response-Keeps = keeps (λ w h. calm.charger w _ h)

  set_motor_control-Keeps : (motor : MotorId) (value : ℕ) → Keeps P (set_motor_control motor value)
  unfolding set_motor_control
  set_motor_control-Keeps motor value =
      keeps (λ w h. calm.quiet w (Event.i2c_write_blocking i2c0 _ _ false) refl h)

  pub scope_set_controls-Keeps : (packed : ℕ) → Keeps P (drv8830_scope_set_controls packed)
  unfolding drv8830_scope_set_controls
  scope_set_controls-Keeps packed = search (Keeps->>, Keeps-pure, set_motor_control-Keeps)

  charger-Keeps : (f : World → ChargerState) → Keeps P (modify (λ w. record w { charger = f w }))
  charger-Keeps f = keeps (λ w h. calm.charger w (f w) h)

  module _ (hw : Hardware) where
    -- What the handlers do for a test that has been started.
    response-Keeps :
        (started : World → Bool) (func : EntryFunc) (arg : ℕ)
        → Keeps P (gets started >>= λ b. when b (call_queue_try_add hw func arg))
    response-Keeps started func arg =
        Keeps-gets P started _ (λ b. Keeps-when P b _ (call_queue-Keeps P calm hw func arg))

    pub drv8830_on_interrupt-Keeps :
        (gpio event_mask : ℕ) → Keeps P (drv8830_on_interrupt hw gpio event_mask)
    unfolding drv8830_on_interrupt
    drv8830_on_interrupt-Keeps gpio event_mask = Keeps-when P _ _ (
        Keeps->> P _ _ (ack-Keeps P calm gpio 4) (
          Keeps->> P _ _ (call_queue-Keeps P calm hw EntryFunc.drv8830_fault_handler gpio)
            (response-Keeps _ EntryFunc.drv8830_test_response 1)))

    pub max77976_on_interrupt-Keeps :
        (gpio event_mask : ℕ) → Keeps P (max77976_on_battery_charger_interrupt hw gpio event_mask)
    unfolding max77976_on_battery_charger_interrupt
    max77976_on_interrupt-Keeps gpio event_mask = Keeps-when P _ _ (
        Keeps-gets P (λ w. w.charger) _
          (λ (charger : ChargerState). Keeps->> P _ _ (ack-Keeps P calm charger.gpio_interrupt 4) (
            Keeps->> P _ _ (call_queue-Keeps P calm hw EntryFunc.max77976_parse_interrupt_vals 0) (
              response-Keeps (λ w. w.charger.test_max77976_started) EntryFunc.max77976_test_response
                1))))

    edge_branch-Keeps : (gpio edge : ℕ) (func : EntryFunc) → Keeps P (edge_branch hw gpio edge func)
    unfolding edge_branch
    edge_branch-Keeps gpio edge func = Keeps->> P _ _ (ack-Keeps P calm gpio edge) (
        Keeps->> P _ _ (call_queue-Keeps P calm hw func 0)
          (response-Keeps _ EntryFunc.ncp3901_test_response 1))

    pub ncp3901_on_interrupt-Keeps :
        (gpio event_mask : ℕ) → Keeps P (ncp3901_on_wireless_charger_interrupt hw gpio event_mask)
    unfolding ncp3901_on_wireless_charger_interrupt
    ncp3901_on_interrupt-Keeps gpio event_mask =
        Keeps-if P _ _ _ (edge_branch-Keeps gpio 8 EntryFunc.ncp3901_on_wireless_charger_detached) (
          Keeps-when P _ _
            (edge_branch-Keeps gpio 4 EntryFunc.ncp3901_on_wireless_charger_attached))

    pub attached-Keeps : Keeps P (ncp3901_on_wireless_charger_attached hw)
    unfolding ncp3901_on_wireless_charger_attached
    attached-Keeps = Keeps->> P _ _ (log-Keeps P calm hw _ _) (keeps (λ w h. calm.wireless w _ h))

    pub detached-Keeps : Keeps P (ncp3901_on_wireless_charger_detached hw)
    unfolding ncp3901_on_wireless_charger_detached
    detached-Keeps = Keeps->> P _ _ (log-Keeps P calm hw _ _) (keeps (λ w h. calm.wireless w _ h))

    handle_fault-Keeps : (addr : ℕ) (motor : String) → Keeps P (handle_fault hw addr motor)
    unfolding handle_fault
    handle_fault-Keeps addr motor =
        search
          (
            Keeps->>=,
            Keeps->>,
            Keeps-if,
            Keeps-pure,
            write-Keeps P calm hw,
            read-Keeps P calm hw,
            log-Keeps P calm hw,
          )
          depth 12

    pub fault_handler-Keeps : (gpio : ℕ) → Keeps P (drv8830_fault_handler hw gpio)
    unfolding drv8830_fault_handler
    fault_handler-Keeps gpio =
        search (Keeps-gets, Keeps->>, Keeps-if, Keeps-pure, handle_fault-Keeps, log-Keeps P calm hw)
          depth 12

    vals-Keeps : Keeps P (max77976_get_interrupt_vals hw)
    unfolding max77976_get_interrupt_vals
    vals-Keeps =
        search
          (
            Keeps->>=,
            Keeps->>,
            Keeps-pure,
            write-Keeps P calm hw,
            read-Keeps P calm hw,
            log-Keeps P calm hw,
          )
          depth 12

    rows-Keeps :
        (interrupts okays : ℕ) (rows : List InterruptRow)
        → Keeps P (log_rows hw interrupts okays rows)
    unfolding log_rows
    rows-Keeps interrupts okays [] = Keeps-pure P tt
    rows-Keeps interrupts okays (row ∷ rows) =
        Keeps->> P _ _
          (Keeps-when P _ _ (Keeps->> P _ _ (log-Keeps P calm hw _ _) (log-Keeps P calm hw _ _)))
          (rows-Keeps interrupts okays rows)

    pub max77976_parse-Keeps : Keeps P (max77976_parse_interrupt_vals hw)
    unfolding max77976_parse_interrupt_vals
    max77976_parse-Keeps =
        search (Keeps->>=, Keeps->>, Keeps-when, Keeps-pure, vals-Keeps, rows-Keeps, charger-Keeps)
          depth 12
