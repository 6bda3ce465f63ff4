-- ===== src/Charger/SelfTest.antt =====
-- src/max77976.c: the three self tests of the battery charger. A local byte that a read may leave alone
-- is `get_or ... 0`; `fuel` bounds the rounds of the loop.
use smartphone_robot_firmwar.Base.{
  ℕ, ◌*◌, Bool, true, false, [], ◌∷◌, Option, ◌==◌, not, get_or, if◌then◌else◌, u32,
}
use smartphone_robot_firmwar.Board.Sdk.{Event, i2c1, Arg}
use smartphone_robot_firmwar.Board.{
  Hardware, World, M, ◌>>=◌, ◌>>◌, assert_false, modify, gets, call, when, gpio_get, rp2040_log,
}
use smartphone_robot_firmwar.Board.I2cRetry.{i2c_write_error_handling, i2c_read_error_handling}
use smartphone_robot_firmwar.Board.Wait.{wait_asserting, resume}
use smartphone_robot_firmwar.Charger.Details.{max77976_addr}
use smartphone_robot_firmwar.Charger.{
  max77976_set_interrupt_masks, max77976_set_interrupt_masks_all_masked,
}

abbrev pub set_test_started : Bool → M (Unit {0})
set_test_started b =
    modify (λ w. record w { charger = record (w.charger) { test_max77976_started = b } })

abbrev pub clear_test_completed : M (Unit {0})
clear_test_completed =
    modify (λ w. record w { charger = record (w.charger) { test_max77976_completed = false } })

module _ (hw : Hardware) where
  -- The register number is read through the pointer 0x0.
  unfoldable pub test_max77976_get_id : M (Unit {0})
  test_max77976_get_id = do
    rp2040_log hw "test_max77976_get_id started...\n" []
    max77976_set_interrupt_masks_all_masked hw
    i2c_write_error_handling hw i2c1 max77976_addr (hw.null_byte ∷ []) true
    bytes ← i2c_read_error_handling hw i2c1 max77976_addr 1 false
    when (not (get_or bytes 0 0 == 0x76))
        (do rp2040_log hw "MAX77976 not responding. Exiting.\n" []; assert_false)
    max77976_set_interrupt_masks hw
    rp2040_log hw "test_max77976_get_id PASSED. Read CHIP_ID %x.\n"
        (Arg.num (get_or bytes 0 0) ∷ [])

  unfoldable pub test_max77976_get_fsw : M (Unit {0})
  test_max77976_get_fsw = do
    rp2040_log hw "test_max77976_get_FSW started...\n" []
    max77976_set_interrupt_masks_all_masked hw
    i2c_write_error_handling hw i2c1 max77976_addr (0x1e ∷ []) true
    bytes ← i2c_read_error_handling hw i2c1 max77976_addr 1 false
    when (not (get_or bytes 0 0 == 0))
        (do rp2040_log hw "MAX77976 FSW Not 0x0. Exiting.\n" []; assert_false)
    max77976_set_interrupt_masks hw
    rp2040_log hw "test_max77976_get_FSW PASSED. Read register 0x1E to be %x.\n"
        (Arg.num (get_or bytes 0 0) ∷ [])

  -- The test after `i` rounds of its loop.
  unfoldable pub finish_test : ℕ → M (Unit {0})
  finish_test i = do
    pin_after ← gets (λ w. w.charger.gpio_interrupt)
    call (Event.gpio_set_dir pin_after false)
    call (Event.gpio_pull_up pin_after)
    set_test_started false
    clear_test_completed
    max77976_set_interrupt_masks hw
    rp2040_log hw "test_max77976_interrupt: Passed after %lu milliseconds.\n"
        (Arg.num (u32 (i * 10)) ∷ [])

  module _ (others : World → World) (fuel : ℕ) where
    unfoldable pub wait_completed : M (Option ℕ)
    wait_completed =
        wait_asserting hw others (λ w. w.charger.test_max77976_completed)
          "test_max77976_interrupt timed out\n" fuel 0

    -- The test up to the end of its loop.
    unfoldable pub drive_low : M (Option ℕ)
    drive_low = do
      rp2040_log hw "test_max77976_interrupt starting...\n" []
      max77976_set_interrupt_masks_all_masked hw
      set_test_started true
      pin ← gets (λ w. w.charger.gpio_interrupt)
      before ← gpio_get hw pin
      rp2040_log hw "test_max77976_interrupt: prior to driving low GPIO%d. Current Value:%d\n"
          (Arg.num pin ∷ Arg.num (if before then 1 else 0) ∷ [])
      call (Event.gpio_set_dir pin true)
      high ← gpio_get hw pin
      when high (do
        value ← gpio_get hw pin
        rp2040_log hw "test_max77976_interrupt: GPIO%d was not driven low. Current Value:%d\n"
            (Arg.num pin ∷ Arg.num (if value then 1 else 0) ∷ [])
        assert_false)
      now ← gpio_get hw pin
      rp2040_log hw "test_max77976_interrupt: after driving low GPIO%d. Current Value:%d\n"
          (Arg.num pin ∷ Arg.num (if now then 1 else 0) ∷ [])
      wait_completed

    unfoldable pub test_max77976_interrupt : M (Option (Unit {0}))
    test_max77976_interrupt = do rounds ← drive_low; resume rounds finish_test
