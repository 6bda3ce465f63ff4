-- ===== src/Robot/Endings.antt =====
-- src/max77976.c, src/ncp3901.c, src/drv8830.c: the self tests whose loops stop the firmware when they have
-- waited too long.
use smartphone_robot_firmwar.Base.{ℕ, true, String, Option, ◌≡◌}
use smartphone_robot_firmwar.Board.{Hardware, World, M, ◌>>=◌}
use smartphone_robot_firmwar.Board.Wait.{resume}
use smartphone_robot_firmwar.Board.Waits.{
  ends, Ends, Ends->>=, Ends->>, Ends-loop, Ends-resume, Ends-wait,
}
use smartphone_robot_firmwar.Charger.SelfTest.{wait_completed, drive_low, test_max77976_interrupt}
use smartphone_robot_firmwar.Wireless.SelfTest as Wireless
use smartphone_robot_firmwar.Wireless.SelfTest.{
  test_connect, test_disconnect, after_connect, test_ncp3901_interrupt,
}
use smartphone_robot_firmwar.Motor.SelfTest as Motor
use smartphone_robot_firmwar.Motor.SelfTest.{
  test_first, test_second, after_first, test_drv8830_interrupt,
}

module _ (hw : Hardware) (others : World → World) where
  -- A loop, and what follows if it has ended.
  loop-Ends :
      {A : Type 0} (m : M (Option A)) (k : A → M (Unit {0}))
      → Ends m
      → Ends (m >>= λ rounds. resume rounds k)
  loop-Ends m k h = Ends-loop m (λ rounds. resume rounds k) h (λ a. Ends-resume a k)

  wait-Ends : Ends (wait_completed hw others 1001)
  unfolding wait_completed
  wait-Ends = Ends-wait hw others _ "test_max77976_interrupt timed out\n" 0

  low-Ends : Ends (drive_low hw others 1001)
  unfolding drive_low
  low-Ends = search (Ends->>=, Ends->>, wait-Ends) depth 24 fits 40000

  charger-Ends : Ends (test_max77976_interrupt hw others 1001)
  unfolding test_max77976_interrupt
  charger-Ends = loop-Ends (drive_low hw others 1001) _ low-Ends

  wireless_wait-Ends : (message : String) → Ends (Wireless.wait_completed hw others 1001 message)
  unfolding Wireless.wait_completed
  wireless_wait-Ends message = Ends-wait hw others _ message 0

  connect-Ends : Ends (test_connect hw others 1001)
  unfolding test_connect
  connect-Ends = search (Ends->>=, Ends->>, wireless_wait-Ends) depth 20

  disconnect-Ends : (i : ℕ) → Ends (test_disconnect hw others 1001 i)
  unfolding test_disconnect
  disconnect-Ends i = search (Ends->>=, Ends->>, wireless_wait-Ends) depth 24 fits 40000

  wireless-Ends : Ends (test_ncp3901_interrupt hw others 1001)
  unfolding test_ncp3901_interrupt after_connect
  wireless-Ends =
      Ends-loop (test_connect hw others 1001) (after_connect hw others 1001) connect-Ends
        (λ i. loop-Ends (test_disconnect hw others 1001 i) _ (disconnect-Ends i))

  motor_wait-Ends : (i : ℕ) → Ends (Motor.wait_completed hw others 1001 i)
  unfolding Motor.wait_completed
  motor_wait-Ends i = Ends-wait hw others _ "ERROR: test_drv8830_interrupt timed out\n" i

  first-Ends : Ends (test_first hw others 1001)
  unfolding test_first
  first-Ends = search (Ends->>=, Ends->>, motor_wait-Ends) depth 20

  second-Ends : (i : ℕ) → Ends (test_second hw others 1001 i)
  unfolding test_second
  second-Ends i = search (Ends->>=, Ends->>, motor_wait-Ends) depth 20

  motor-Ends : Ends (test_drv8830_interrupt hw others 1001)
  unfolding test_drv8830_interrupt after_first
  motor-Ends =
      Ends-loop (test_first hw others 1001) (after_first hw others 1001) first-Ends
        (λ i. loop-Ends (test_second hw others 1001 i) _ (second-Ends i))

  -- The interrupt self tests of the battery charger, of the wireless charger and of the motor drivers
  -- end, with a result or at an assertion, after at most 1001 rounds of each loop, whatever the board
  -- answers and whatever interrupts and core 1 do to the world during the sleeps.
  pub interrupt_tests-ends :
      (w : World)
      → (ends (test_max77976_interrupt hw others 1001 w) ≡ true)
        × ((ends (test_ncp3901_interrupt hw others 1001 w) ≡ true)
            × (ends (test_drv8830_interrupt hw others 1001 w) ≡ true))
  interrupt_tests-ends w = (charger-Ends.at w, (wireless-Ends.at w, motor-Ends.at w))
