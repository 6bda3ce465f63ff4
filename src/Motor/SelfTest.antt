-- ===== src/Motor/SelfTest.antt =====
-- src/drv8830.c: the self tests of the motor drivers. The count of the second loop goes on from the
-- first; `fuel` bounds the rounds of each loop.
use smartphone_robot_firmwar.Base.{
  ℕ, ◌*◌, Bool, true, false, [], ◌∷◌, Option, none, some, if◌then◌else◌, u32,
}
use smartphone_robot_firmwar.Board.Sdk.{Event, Arg}
use smartphone_robot_firmwar.Board.{
  Hardware, World, M, pure, ◌>>=◌, ◌>>◌, assert_false, modify, gets, call, when, gpio_get,
  rp2040_log,
}
use smartphone_robot_firmwar.Board.Wait.{wait_asserting, resume}
use smartphone_robot_firmwar.Motor.{drv8830_clear_faults}

abbrev pub set_test_started : Bool → M (Unit {0})
set_test_started b =
    modify (λ w. record w { motor = record (w.motor) { test_drv8830_started = b } })

abbrev pub clear_test_completed : M (Unit {0})
clear_test_completed =
    modify (λ w. record w { motor = record (w.motor) { test_drv8830_completed = false } })

module _ (hw : Hardware) where
  unfoldable pub test_drv8830_get_faults : M (Unit {0})
  test_drv8830_get_faults = do
    rp2040_log hw "test_drv8830_get_faults starting...\n" []
    drv8830_clear_faults hw
    rp2040_log hw "test_drv8830_get_faults: PASSED.\n" []

  module _ (others : World → World) (fuel : ℕ) where
    unfoldable pub wait_completed : ℕ → M (Option ℕ)
    wait_completed i =
        wait_asserting hw others (λ w. w.motor.test_drv8830_completed)
          "ERROR: test_drv8830_interrupt timed out\n" fuel i

    unfoldable pub test_first : M (Option ℕ)
    test_first = do
      rp2040_log hw "test_drv8830_interrupt starting...\n" []
      set_test_started true
      pin ← gets (λ w. w.motor.gpio_fault1)
      before ← gpio_get hw pin
      rp2040_log hw "test_drv8830_interrupt: prior to driving low GPIO%d. Current Value:%d\n"
          (Arg.num pin ∷ Arg.num (if before then 1 else 0) ∷ [])
      call (Event.gpio_set_dir pin true)
      high ← gpio_get hw pin
      when high (do
        value ← gpio_get hw pin
        rp2040_log hw "ERROR: test_drv8830_interrupt: GPIO%d was not driven low. Current Value:%d\n"
            (Arg.num pin ∷ Arg.num (if value then 1 else 0) ∷ [])
        assert_false)
      now ← gpio_get hw pin
      rp2040_log hw "test_drv8830_interrupt: after driving low GPIO%d. Current Value:%d\n"
          (Arg.num pin ∷ Arg.num (if now then 1 else 0) ∷ [])
      wait_completed 0

    -- The second motor up to the end of its loop, after `i` rounds for the first.
    unfoldable pub test_second : ℕ → M (Option ℕ)
    test_second i = do
      pin1 ← gets (λ w. w.motor.gpio_fault1)
      call (Event.gpio_set_dir pin1 false)
      call (Event.gpio_pull_up pin1)
      set_test_started false
      clear_test_completed
      rp2040_log hw "test_drv8830_interrupt: Encoder 1 PASSED after %lu milliseconds.\n"
          (Arg.num (u32 (i * 10)) ∷ [])
      set_test_started true
      pin2 ← gets (λ w. w.motor.gpio_fault2)
      call (Event.gpio_set_dir pin2 true)
      wait_completed i

    -- The second motor, if the first loop has ended.
    unfoldable pub after_first : Option ℕ → M (Option (Unit {0}))
    after_first none = pure none
    after_first (some i) = do
      rounds ← test_second i
      resume rounds (λ j. (do
        pin ← gets (λ w. w.motor.gpio_fault2)
        call (Event.gpio_set_dir pin false)
        call (Event.gpio_pull_up pin)
        set_test_started false
        rp2040_log hw "test_drv8830_interrupt: Encoder 2 PASSED after %lu milliseconds.\n"
            (Arg.num (u32 (j * 10)) ∷ [])))

    unfoldable pub test_drv8830_interrupt : M (Option (Unit {0}))
    test_drv8830_interrupt = do rounds ← test_first; after_first rounds
