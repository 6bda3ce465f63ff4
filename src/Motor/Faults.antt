-- ===== src/Motor/Faults.antt =====
-- Reading and clearing the fault registers of the two motor drivers.
use smartphone_robot_firmwar.Base.{
  ℕ, pos, negsuc, Bool, true, false, List, [], ◌∷◌, map, String, bit_and, ◌==◌, not, get_or, set,
  Bool-cases, inl, inr, if◌then◌else◌, u8, ◌≡◌, arith,
}
use smartphone_robot_firmwar.Board.Sdk.{Event, i2c0, Arg}
use smartphone_robot_firmwar.Board.{Hardware, World, ok, assert_failed, rp2040_log, ◌>>=◌}
use smartphone_robot_firmwar.Board.Bus.{BusAcks, told, write_acked, read_acked}
use smartphone_robot_firmwar.Motor.{
  motor_left_address, motor_right_address, drv8830_get_faults, drv8830_clear_faults,
  drv8830_fault_handler, read_fault, clear_fault, handle_fault,
}

-- The calls that read a fault register, and those that clear it first, newest first.
abbrev pub queried : ℕ → List Event → List Event
queried addr h =
    Event.i2c_read_timeout_us i2c0 addr 1 false
    ∷ Event.i2c_write_timeout_us i2c0 addr (1 ∷ []) true
    ∷ h

abbrev pub sent_clear : ℕ → List Event → List Event
sent_clear addr h = Event.i2c_write_timeout_us i2c0 addr (1 ∷ 0x80 ∷ []) false ∷ h

-- The first byte of an answer, or `d` if there is none.
abbrev pub answer : Hardware → List Event → ℕ → ℕ
answer hw h d = get_or (map (λ b. u8 b) (hw.read_bytes h)) 0 d

abbrev fault_bit : ℕ → Bool
fault_bit n = not (bit_and n 1 == 0)

-- One round of each loop, and the handler's branch for a known motor.
module _ (hw : Hardware) (acks : BusAcks hw) where
  read_fault_lem :
      (i addr : ℕ) (w : World)
      → read_fault hw i addr w ≡ (
          let h = queried addr w.trace in
          let old = w.motor.fault_values in
          ok tt (record w {
            trace = h;
            motor = record (w.motor) { fault_values = set old i (answer hw h (get_or old i 0)) };
          }))
  unfolding read_fault
  read_fault_lem i addr w = simp (read_fault, ◌>>=◌, write_acked hw acks, read_acked hw acks)

  clear_fault_lem :
      (i addr fault_value : ℕ) (w : World)
      → clear_fault hw i addr fault_value w ≡ (
          let h = queried addr (sent_clear addr w.trace) in
          if fault_bit (answer hw h fault_value)
          then assert_failed (
              told hw "ERROR: Motor %d cannot clear faults. Exiting.\n"
                (Arg.num i ∷ [])
                (record w { trace = h }))
          else ok (answer hw h fault_value) (record w { trace = h }))
  unfolding clear_fault rp2040_log
  clear_fault_lem i addr fault_value w =
      simp (clear_fault, ◌>>=◌, write_acked hw acks, read_acked hw acks) (ground arith)

  handle_fault_lem :
      (addr : ℕ) (motor : String) (w : World)
      → handle_fault hw addr motor w ≡ (
          let h = queried addr w.trace in
          let fault_values = answer hw h 0 in
          if fault_bit fault_values
          then ok (pos 0) (
              told hw "Fault values for Motor %s: 0x%x\n"
                (Arg.str motor ∷ Arg.num fault_values ∷ [])
                (told hw "%s motor fault\n" (Arg.str motor ∷ []) (record w { trace = h })))
          else ok (pos 0) (record w { trace = sent_clear addr h }))
  unfolding handle_fault rp2040_log
  handle_fault_lem addr motor w =
      simp (handle_fault, ◌>>=◌, write_acked hw acks, read_acked hw acks) (ground arith)

  -- Both rounds of the loop, from a world `w`.
  clear_faults_lem :
      (w : World)
      → drv8830_clear_faults hw w ≡ (
          let h3 = queried motor_left_address (sent_clear motor_left_address w.trace) in
          let h4 = queried motor_right_address (sent_clear motor_right_address h3) in
          let left_after = answer hw h3 1 in
          let right_after = answer hw h4 left_after in
          let message : String = "ERROR: Motor %d cannot clear faults. Exiting.\n" in
          if fault_bit left_after
          then assert_failed (told hw message (Arg.num 0 ∷ []) (record w { trace = h3 }))
          else if fault_bit right_after
          then assert_failed (told hw message (Arg.num 1 ∷ []) (record w { trace = h4 }))
          else ok tt (record w { trace = h4 }))
  unfolding drv8830_clear_faults
  clear_faults_lem w = elim (Bool-cases (fault_bit left_after)) [
    | inl e ↦ simp (drv8830_clear_faults, ◌>>=◌, clear_fault_lem 0 motor_left_address 1 w, e)
    | inr e ↦
        simp (drv8830_clear_faults, ◌>>=◌, clear_fault_lem 0 motor_left_address 1 w, e)
          (ground
            (arith, clear_fault_lem 1 motor_right_address left_after (record w { trace = h3 })))
  ]
    where
      h3 : List Event
      h3 = queried motor_left_address (sent_clear motor_left_address w.trace)

      left_after : ℕ
      left_after = answer hw h3 1

-- On a bus that acknowledges, `drv8830_get_faults` reads the left and the right register, then clears
-- the left and the right fault, reading each back. It returns the bytes read before the clearing. If
-- the left fault bit stays set it asserts and does not clear the right motor; if the right one does,
-- it asserts too.
pub drv8830_get_faults_lem :
    (hw : Hardware) (w : World)
    → BusAcks hw
    → drv8830_get_faults hw w ≡ (
        let h1 = queried motor_left_address w.trace in
        let h2 = queried motor_right_address h1 in
        let h3 = queried motor_left_address (sent_clear motor_left_address h2) in
        let h4 = queried motor_right_address (sent_clear motor_right_address h3) in
        let old = w.motor.fault_values in
        let left = set old 0 (answer hw h1 (get_or old 0 0)) in
        let both = set left 1 (answer hw h2 (get_or left 1 0)) in
        let read = record w { motor = record (w.motor) { fault_values = both } } in
        let left_after = answer hw h3 1 in
        let right_after = answer hw h4 left_after in
        let message : String = "ERROR: Motor %d cannot clear faults. Exiting.\n" in
        if fault_bit left_after
        then assert_failed (told hw message (Arg.num 0 ∷ []) (record read { trace = h3 }))
        else if fault_bit right_after
        then assert_failed (told hw message (Arg.num 1 ∷ []) (record read { trace = h4 }))
        else ok both (record read { trace = h4 }))
unfolding drv8830_get_faults
drv8830_get_faults_lem hw w acks =
    simp (drv8830_get_faults, ◌>>=◌, read_fault_lem hw acks, clear_faults_lem hw acks)
      (ground arith)

-- On a bus that acknowledges, the fault handler reads the register of the motor whose pin fired (the
-- left one if both pins are the same). It clears the fault if the FAULT bit is 0, only logs it if the
-- bit is 1, and returns 0. For any other pin it logs, leaves the bus alone and returns -1.
pub drv8830_fault_handler_lem :
    (hw : Hardware) (gpio : ℕ) (w : World)
    → BusAcks hw
    → drv8830_fault_handler hw gpio w ≡ (
        let known = λ (addr : ℕ) (motor : String).
          let h = queried addr w.trace in
          let fault_values = answer hw h 0 in
          if fault_bit fault_values
          then ok (pos 0) (
              told hw "Fault values for Motor %s: 0x%x\n"
                (Arg.str motor ∷ Arg.num fault_values ∷ [])
                (told hw "%s motor fault\n" (Arg.str motor ∷ []) (record w { trace = h })))
          else ok (pos 0) (record w { trace = sent_clear addr h }) in
        if gpio == w.motor.gpio_fault1
        then known motor_left_address "Left"
        else if gpio == w.motor.gpio_fault2
        then known motor_right_address "Right"
        else ok (negsuc 0) (told hw "Error: invalid motor fault\n" [] w))
unfolding drv8830_fault_handler rp2040_log
drv8830_fault_handler_lem hw gpio w acks = ground (
  arith,
  handle_fault_lem hw acks motor_left_address "Left" w,
  handle_fault_lem hw acks motor_right_address "Right" w,
)
