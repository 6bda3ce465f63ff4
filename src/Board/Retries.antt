-- ===== src/Board/Retries.antt =====
-- How the retry loops of src/robot.c behave on every sequence of answers of the bus.
use smartphone_robot_firmwar.Base.{
  ℕ, ℤ, is_nonneg, Bool, String, List, [], ◌∷◌, map, if◌then◌else◌, u8, ◌≡◌, arith,
}
use smartphone_robot_firmwar.Board.Sdk.{Event, I2c, Arg}
use smartphone_robot_firmwar.Board.{Hardware, World, Outcome, ok, assert_failed, logged, rp2040_log}
use smartphone_robot_firmwar.Board.I2cRetry.{i2c_write_error_handling, i2c_read_error_handling}

-- The calls of up to three attempts, newest first.
abbrev pub attempt1 : Event → List Event → List Event
attempt1 e h = e ∷ h

abbrev pub attempt2 : Event → List Event → List Event
attempt2 e h = e ∷ Event.sleep_ms 10 ∷ attempt1 e h

abbrev pub attempt3 : Event → List Event → List Event
attempt3 e h = e ∷ Event.sleep_ms 10 ∷ attempt2 e h

-- The outcome of the first attempt that succeeds, or of an assertion that fails after the third: the
-- message is logged between taking the log's mutex and giving it back.
abbrev pub first_success :
    {A : Type 0}
    → Hardware
    → (List Event → ℤ)
    → (List Event → A)
    → String
    → Event
    → World
    → Outcome A
first_success hw result answer message e w =
    let at = λ (h : List Event). record w { trace = h } in
    let h1 = attempt1 e w.trace in
    let h2 = attempt2 e w.trace in
    let h3 = attempt3 e w.trace in
    if is_nonneg (result h1)
    then ok (answer h1) (at h1)
    else if is_nonneg (result h2)
    then ok (answer h2) (at h2)
    else if is_nonneg (result h3)
    then ok (answer h3) (at h3)
    else assert_failed (record w {
      trace = Event.mutex_exit ∷ Event.mutex_enter_blocking ∷ h3;
      log_buffer =
          (logged hw message (Arg.int (result h3) ∷ Arg.int (result h3) ∷ []) w).log_buffer;
    })

module _ (hw : Hardware) where
  -- On any bus a write is attempted at most three times, with 10 ms between attempts, and stops at
  -- the first attempt that succeeds; after three failures it logs the last result and asserts.
  pub i2c_write_error_handling_lem :
      (i2c : I2c) (addr : ℕ) (src : List ℕ) (nostop : Bool) (w : World)
      → i2c_write_error_handling hw i2c addr src nostop w
        ≡ first_success hw hw.write_result
            (λ h. tt)
            "ERROR: During i2c_write. Returned value of %i %i \n"
            (Event.i2c_write_timeout_us i2c addr src nostop)
            w
  unfolding i2c_write_error_handling rp2040_log
  i2c_write_error_handling_lem i2c addr src nostop w = ground arith

  -- On any bus a read is attempted at most three times, with 10 ms between attempts, and returns the
  -- bytes of the first attempt that succeeds; after three failures it logs the last result and asserts.
  pub i2c_read_error_handling_lem :
      (i2c : I2c) (addr len : ℕ) (nostop : Bool) (w : World)
      → i2c_read_error_handling hw i2c addr len nostop w
        ≡ first_success hw hw.read_result
            (λ h. map (λ b. u8 b) (hw.read_bytes h))
            "ERROR: During i2c_read. Returned value of %i %i \n"
            (Event.i2c_read_timeout_us i2c addr len nostop)
            w
  unfolding i2c_read_error_handling rp2040_log
  i2c_read_error_handling_lem i2c addr len nostop w = ground arith
