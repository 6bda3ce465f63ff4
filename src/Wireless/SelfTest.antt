-- ===== src/Wireless/SelfTest.antt =====
-- src/ncp3901.c: the self test that drives the wireless charger's pin low and pulls it up again. `fuel`
-- bounds the rounds of each of its two loops.
use smartphone_robot_firmwar.Base.{
  ℕ, ◌*◌, Bool, true, false, [], ◌∷◌, Option, none, some, String, not, if◌then◌else◌, u32,
}
use smartphone_robot_firmwar.Board.Sdk.{Event, Arg}
use smartphone_robot_firmwar.Board.{
  Hardware, World, M, pure, ◌>>=◌, ◌>>◌, assert_false, modify, gets, call, when, gpio_get,
  rp2040_log,
}
use smartphone_robot_firmwar.Board.Wait.{wait_asserting, resume}

abbrev pub set_test_started : Bool → M (Unit {0})
set_test_started b =
    modify (λ w. record w { wireless = record (w.wireless) { test_ncp3901_started = b } })

abbrev pub clear_test_completed : M (Unit {0})
clear_test_completed =
    modify (λ w. record w { wireless = record (w.wireless) { test_ncp3901_completed = false } })

module _ (hw : Hardware) where
  -- A line that prints the pin and its level.
  unfoldable pub log_pin : String → M (Unit {0})
  log_pin format = do
    pin ← gets (λ w. w.wireless.gpio_wireless_charger)
    value ← gpio_get hw pin
    rp2040_log hw format (Arg.num pin ∷ Arg.num (if value then 1 else 0) ∷ [])

  -- `if (gpio_get(pin) != level){ rp2040_log(...); assert(false); }`
  unfoldable pub check_level : Bool → String → M (Unit {0})
  check_level level message = do
    pin ← gets (λ w. w.wireless.gpio_wireless_charger)
    value ← gpio_get hw pin
    when (if value then not level else level) (do log_pin message; assert_false)

  module _ (others : World → World) (fuel : ℕ) where
    unfoldable pub wait_completed : String → M (Option ℕ)
    wait_completed message =
        wait_asserting hw others (λ w. w.wireless.test_ncp3901_completed) message fuel 0

    unfoldable pub test_connect : M (Option ℕ)
    test_connect = do
      rp2040_log hw "test_ncp3901_interrupt: starting test of wireless connection...\n" []
      set_test_started true
      log_pin "test_ncp3901_interrupt: prior to driving low GPIO%d. Current Value:%d\n"
      pin ← gets (λ w. w.wireless.gpio_wireless_charger)
      call (Event.gpio_set_dir pin true)
      check_level false
          "ERROR: test_ncp3901_interrupt: GPIO%d was not driven low. Current Value:%d\n"
      log_pin "test_ncp3901_interrupt: after driving low GPIO%d. Current Value:%d\n"
      wait_completed "ERROR: test_ncp3901_interrupt wireless connect timed out\n"

    -- The second half up to the end of its loop, after `i` rounds of the first.
    unfoldable pub test_disconnect : ℕ → M (Option ℕ)
    test_disconnect i = do
      set_test_started false
      clear_test_completed
      rp2040_log hw "test_ncp3901_interrupt_wireless_connect: PASSED after %lu milliseconds.\n"
          (Arg.num (u32 (i * 10)) ∷ [])
      rp2040_log hw "test_ncp3901_interrupt: starting test of wireless disconnection...\n" []
      set_test_started true
      log_pin "test_ncp3901_interrupt: prior to pulling up GPIO%d. Current Value:%d\n"
      pin ← gets (λ w. w.wireless.gpio_wireless_charger)
      call (Event.gpio_set_dir pin false)
      call (Event.gpio_pull_up pin)
      check_level true "ERROR: test_ncp3901_interrupt: GPIO%d was pulled up. Current Value:%d\n"
      log_pin "test_ncp3901_interrupt: after pulling up GPIO%d. Current Value:%d\n"
      wait_completed "ERROR: test_ncp3901_interrupt wireless disconnect timed out\n"

    -- The second half, if the first loop has ended.
    unfoldable pub after_connect : Option ℕ → M (Option (Unit {0}))
    after_connect none = pure none
    after_connect (some i) = do
      rounds ← test_disconnect i
      resume rounds (λ j.
          rp2040_log hw
            "test_ncp3901_interrupt_wireless_disconnect: PASSED after %lu milliseconds.\n"
            (Arg.num (u32 (j * 10)) ∷ []))

    unfoldable pub test_ncp3901_interrupt : M (Option (Unit {0}))
    test_ncp3901_interrupt = do rounds ← test_connect; after_connect rounds
